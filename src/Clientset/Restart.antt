-- ===== src/Clientset/Restart.antt =====
-- The client file of src/Clientset.cpp across a restart of the server: what `read_cache` makes of
-- what `save_cache` wrote.
use istatserverlinux.Prelude.{
  ℕ, ◌≤◌, true, List, [], ◌∷◌, ◌++◌, none, some, ◌≡◌, ◌≢◌, refl, ap, ◌∙◌, sym, arith, length, All,
  append_assoc, append-nil,
}
use istatserverlinux.Prelude.Int.{ℤ}
use istatserverlinux.Text.{Bytes}
use istatserverlinux.Text.Number.{to_int}
use istatserverlinux.Text.Explode.{explode}
use istatserverlinux.Text.Explode.Pieces.{
  Lacks, explode-pieces, length-explode_le_one, pieces-append, pieces-Lacks,
}
use istatserverlinux.Clientset.Lines.{lines-append}
use istatserverlinux.Clientset.{
  ClientSet, cache_text, save_cache, authenticate, lines, line_client, fields_client, read_lines,
  read_cache,
}

-- A name that the file holds as one line, and that does not read as three fields.
pub record IsPlain (uuid : Bytes) : Type 0 where
  pub not_empty : uuid ≢ []
  pub one_line : Lacks b'\n' uuid
  pub one_field : Lacks b':' uuid

lines-cache_text :
    (clients : List Bytes) → All (Lacks b'\n') clients → lines [] (cache_text clients) ≡ clients
unfolding cache_text lines
lines-cache_text [] h = refl
lines-cache_text (u ∷ clients) h =
    lines-append [] u (cache_text clients) h.0 ∙ ap (◌∷◌ u) (lines-cache_text clients h.1)

fields_client-short :
    (stray : ℤ) (line : Bytes) (fields : List Bytes)
    → length fields ≤ 1
    → fields_client stray line fields ≡ some line
unfolding fields_client
fields_client-short stray line [] h = refl
fields_client-short stray line (a ∷ []) h = refl
fields_client-short stray line (a ∷ b ∷ fields) h = absurd (omega arith)

line_client-cons :
    (stray : ℤ) (c : ℕ) (s : Bytes)
    → line_client stray (c ∷ s) ≡ fields_client stray (c ∷ s) (explode (c ∷ s) (b':' ∷ []))
unfolding line_client
line_client-cons stray c s = ground arith

line_client-IsPlain : (stray : ℤ) (uuid : Bytes) → IsPlain uuid → line_client stray uuid ≡ some uuid
line_client-IsPlain stray [] p = absurd (p.not_empty refl)
line_client-IsPlain stray (c ∷ s) p =
    line_client-cons stray c s
    ∙ fields_client-short stray (c ∷ s) _ (length-explode_le_one b':' (c ∷ s) p.one_field)

read_lines-IsPlain :
    (stray : List Bytes → ℤ) (known clients : List Bytes)
    → All IsPlain clients
    → read_lines stray known clients ≡ known ++ clients
unfolding read_lines
read_lines-IsPlain stray known [] h = sym (append-nil known)
read_lines-IsPlain stray known (u ∷ clients) h =
    rw (line_client-IsPlain (stray clients) u h.0)
      (read_lines-IsPlain stray (known ++ u ∷ []) clients h.1 ∙ append_assoc known (u ∷ []) clients)

All-one_line : (clients : List Bytes) → All IsPlain clients → All (Lacks b'\n') clients
All-one_line [] h = tt
All-one_line (u ∷ clients) h = (h.0.one_line, All-one_line clients h.1)

-- The set of a server that starts up on the disk that another left, with what the variable that
-- `to_int` does not initialise holds at each line.
abbrev pub restarted : (List Bytes → ℤ) → ClientSet → ClientSet
restarted stray c =
    read_cache stray (record { authenticated_clients = []; cache_dir = []; disk = c.disk })
      c.cache_dir

clients_dat-save_cache :
    (c : ClientSet)
    → length c.cache_dir ≢ 0
    → c.disk.writable ≡ true
    → (save_cache c).disk.clients_dat ≡ some (cache_text c.authenticated_clients)
unfolding save_cache
clients_dat-save_cache c d w = ground arith

-- Where the directory is set and writable, and each client's name is not empty and has no newline
-- and no colon, a server that restarts knows just the clients that were saved, in their order.
pub restarted-save_cache :
    (stray : List Bytes → ℤ) (c : ClientSet)
    → length c.cache_dir ≢ 0
    → c.disk.writable ≡ true
    → All IsPlain c.authenticated_clients
    → (restarted stray (save_cache c)).authenticated_clients ≡ c.authenticated_clients
unfolding read_cache save_cache
restarted-save_cache stray c d w p = rw (clients_dat-save_cache c d w) (
    rw (lines-cache_text c.authenticated_clients (All-one_line c.authenticated_clients p))
      (read_lines-IsPlain stray [] c.authenticated_clients p))

-- The name `first:second:1`.
abbrev pub colon_name : Bytes → Bytes → Bytes
colon_name first second = first ++ b':' ∷ (second ++ b':' ∷ b'1' ∷ [])

line_client-colon_name :
    (stray : ℤ) (first second : Bytes)
    → first ≢ []
    → second ≢ []
    → Lacks b':' first
    → Lacks b':' second
    → Lacks b'"' (colon_name first second)
    → line_client stray (colon_name first second) ≡ some second
unfolding fields_client to_int
line_client-colon_name stray [] second f s cf cs q = absurd (f refl)
line_client-colon_name stray (a ∷ first) [] f s cf cs q = absurd (s refl)
line_client-colon_name stray (a ∷ first) (b ∷ second) f s cf cs q =
    line_client-cons stray a _
    ∙ rw (
      explode-pieces b':' (colon_name (a ∷ first) (b ∷ second)) q,
      pieces-append b':' [] (a ∷ first) ((b ∷ second) ++ b':' ∷ b'1' ∷ []) cf,
      pieces-append b':' [] (b ∷ second) (b'1' ∷ []) cs,
      pieces-Lacks b':' (b'1' ∷ []) (omega arith),
    )

-- A set of the given clients, in a directory that holds no file yet.
abbrev pub fresh_set : List Bytes → Bytes → ClientSet
fresh_set clients dir = record {
  authenticated_clients = clients;
  cache_dir = dir;
  disk = record { clients_dat = none; writable = true };
}

-- A client that shows the passcode under the name `first:second:1` is gone after a restart, and the
-- client `second` is authenticated in its place; where the directory is set and writable and holds
-- no clients, first and second are not empty and have no colon, and the name has no newline and no
-- quote.
pub restarted_impersonates :
    (stray : List Bytes → ℤ) (first second dir : Bytes)
    → first ≢ []
    → second ≢ []
    → length dir ≢ 0
    → Lacks b':' first
    → Lacks b':' second
    → Lacks b'\n' (colon_name first second)
    → Lacks b'"' (colon_name first second)
    → (restarted stray
        (authenticate (fresh_set [] dir) (colon_name first second))).authenticated_clients
      ≡ second ∷ []
unfolding read_cache authenticate
restarted_impersonates stray first second dir f s d cf cs l q =
    rw (clients_dat-save_cache (fresh_set (colon_name first second ∷ []) dir) d refl) (
      rw (
        lines-cache_text (colon_name first second ∷ []) (l, tt),
        read_lines,
        line_client-colon_name (stray []) first second f s cf cs q,
      ))
