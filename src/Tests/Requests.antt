-- ===== src/Tests/Requests.antt =====
-- The answers to concrete requests.
use istatserverlinux.Prelude.{
  true, false, [], ◌∷◌, some, none, ◌≡◌, ◌≢◌, refl, ◌⊎◌, inl, if◌then◌else◌,
}
use istatserverlinux.Prelude.Outcome.{done, crash}
use istatserverlinux.Text.{Bytes, codes, str_eq}
use istatserverlinux.Text.Number.{atoi}
use istatserverlinux.Xml.{get_prop, has_name}
use istatserverlinux.Conf.{get}
use istatserverlinux.Clientset.{authenticate, is_authenticated, search_clients}
use istatserverlinux.Responses.Reply.{isr_accept_code, isr_reject_code}
use istatserverlinux.Socket.Request.{Peer, parse, parse_root, on_request, on_code, server_code}
use istatserverlinux.Socket.Request.Auth.{parse-unauthenticated, ShowsCode, is_authenticated-parse}
use istatserverlinux.Socket.Request.Auth.Reply.{IsRequest, parse_code, parse_crashes}
use istatserverlinux.Tests.Fixture.{
  libs, standard, config, stats_of, clients_of, peer_of, code_text, code_root, data_text, data_root,
  hello_text, hello_root, bare_text, isr,
}

u_is_unknown : is_authenticated (clients_of []) (codes "u") ≡ false
unfolding is_authenticated search_clients
u_is_unknown = refl

parse-unauthenticated_example :
    parse libs standard config (stats_of 1) data_text (peer_of [] [])
    ≡ parse libs standard config (stats_of 2) data_text (peer_of [] [])
parse-unauthenticated_example =
    parse-unauthenticated libs standard config (stats_of 1) (stats_of 2) data_text (peer_of [] [])
      u_is_unknown refl

code-IsRequest : IsRequest libs code_text 102 code_root
unfolding has_name get_prop str_eq atoi
code-IsRequest = record {
  type = codes "102";
  reads = refl;
  named = refl;
  type_is = refl;
  code_is = refl;
}

code_shown : get_prop code_root (codes "code") ≡ some (codes "12345")
unfolding get_prop str_eq
code_shown = refl

-- The connection once `u` has shown the passcode.
abbrev peer_known : Peer
peer_known = record (peer_of [] []) {
  clients = authenticate (clients_of []) (codes "u");
  sent = isr_accept_code ∷ [];
}

parse_known : parse libs standard config (stats_of 0) code_text (peer_of [] []) ≡ done peer_known
unfolding parse parse_root on_request on_code has_name get_prop str_eq atoi get
parse_known = refl

u_is_known : is_authenticated (authenticate (clients_of []) (codes "u")) (codes "u") ≡ true
unfolding is_authenticated authenticate str_eq
u_is_known = refl

is_authenticated-parse_example :
    (is_authenticated (clients_of []) (codes "u") ≡ true)
    ⊎ (ShowsCode libs config code_text × (codes "u" ≡ codes "u"))
is_authenticated-parse_example =
    is_authenticated-parse libs standard config (stats_of 0) code_text (peer_of [] []) peer_known
      (codes "u") parse_known u_is_known

parse_code_example :
    (q : Peer) × (parse libs standard config (stats_of 0) code_text (peer_of [] []) ≡ done q)
    × (q.socket ≡ (peer_of [] []).socket)
    × ((codes "12345" ≡ server_code config)
          × (q.sent ≡ isr_accept_code ∷ [])
          × ((uuid : Bytes)
              → is_authenticated q.clients uuid
                ≡ (if is_authenticated (clients_of []) uuid then true else str_eq (codes "u") uuid))
        ⊎ (codes "12345" ≢ server_code config)
          × (q.sent ≡ isr_reject_code ∷ [])
          × (q.clients ≡ clients_of []))
parse_code_example =
    parse_code libs standard config (stats_of 0) code_text (codes "12345") (peer_of [] []) code_root
      code-IsRequest code_shown

data-IsRequest : IsRequest libs data_text 103 data_root
unfolding has_name get_prop str_eq atoi
data-IsRequest = record {
  type = codes "103";
  reads = refl;
  named = refl;
  type_is = refl;
  code_is = refl;
}

hello-IsRequest : IsRequest libs hello_text 101 hello_root
unfolding has_name get_prop str_eq atoi
hello-IsRequest = record {
  type = codes "101";
  reads = refl;
  named = refl;
  type_is = refl;
  code_is = refl;
}

hello_names :
    (get_prop hello_root (codes "uuid") ≡ some (codes "u"))
    × (get_prop hello_root (codes "name") ≡ some (codes "n"))
unfolding get_prop str_eq
hello_names = (refl, refl)

bare_named : (has_name (isr []) (codes "isr") ≡ true) × (get_prop (isr []) (codes "type") ≡ none)
unfolding has_name get_prop str_eq
bare_named = (refl, refl)

bare_reads : libs.read_memory bare_text ≡ some (isr [])
unfolding str_eq
bare_reads = refl

parse_crashes_example : parse libs standard config (stats_of 0) bare_text (peer_of [] []) ≡ crash
parse_crashes_example =
    parse_crashes libs standard config (stats_of 0) bare_text (peer_of [] []) (isr []) bare_reads
      bare_named.0 (inl bare_named.1)
