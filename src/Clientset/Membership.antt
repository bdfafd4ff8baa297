-- ===== src/Clientset/Membership.antt =====
-- Who is authenticated after a call of src/Clientset.cpp.
use istatserverlinux.Prelude.{true, List, [], ◌∷◌, ◌++◌, ◌≡◌, arith, if◌then◌else◌}
use istatserverlinux.Text.{Bytes, str_eq}
use istatserverlinux.Clientset.{ClientSet, authenticate, is_authenticated, search_clients}

search_clients-concat :
    (clients : List Bytes) (uuid other : Bytes)
    → search_clients (clients ++ uuid ∷ []) other
      ≡ (if search_clients clients other then true else str_eq uuid other)
unfolding search_clients
search_clients-concat [] uuid other = ground arith
search_clients-concat (c ∷ clients) uuid other =
    ground (arith, search_clients-concat clients uuid other)

-- After `authenticate`, the client that it was given is authenticated, and any other just if it was
-- before.
pub is_authenticated-authenticate :
    (c : ClientSet) (uuid other : Bytes)
    → is_authenticated (authenticate c uuid) other
      ≡ (if is_authenticated c other then true else str_eq uuid other)
unfolding is_authenticated authenticate
is_authenticated-authenticate c uuid other =
    ground (arith, search_clients-concat c.authenticated_clients uuid other)
