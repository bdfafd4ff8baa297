-- ===== src/Socket/Request/Auth/Reply.antt =====
-- What `Socket::parse` of src/Socket.cpp answers each request with.
use istatserverlinux.Prelude.{
  ℕ, Bool, true, false, [], ◌∷◌, ◌++◌, none, some, ◌≡◌, ◌≢◌, refl, ◌∙◌, ◌⊎◌, inl, inr, arith,
  if◌then◌else◌, Bool-cases, Option-cases, length, ◌==◌,
}
use istatserverlinux.Prelude.Int.{pos}
use istatserverlinux.Prelude.Outcome.{done, crash}
use istatserverlinux.Text.{Bytes, codes, str_eq, str_eq_iff}
use istatserverlinux.Text.Number.{atoi, show_ℤ}
use istatserverlinux.Xml.{Node, get_prop, has_name, Libs}
use istatserverlinux.Conf.{Config}
use istatserverlinux.Clientset.{authenticate, is_authenticated}
use istatserverlinux.Clientset.Membership.{is_authenticated-authenticate}
use istatserverlinux.Stats.{Standard, Stats}
use istatserverlinux.Responses.Reply.{isr_accept_code, isr_reject_code, isr_serverinfo}
use istatserverlinux.Socket.Request.{
  Peer, server_code, auth_mode, is_text_code, on_connect, on_hello, on_code, on_request, parse_root,
  parse, send_text,
}

-- The text is a request `isr` of the given code.
pub record IsRequest (libs : Libs) (text : Bytes) (code : ℕ) (root : Node) : Type 0 where
  pub type : Bytes
  pub reads : libs.read_memory text ≡ some root
  pub named : has_name root (codes "isr") ≡ true
  pub type_is : get_prop root (codes "type") ≡ some type
  pub code_is : atoi type ≡ pos code

-- What the `auth` of the greeting says of a known or unknown client and the passcode.
abbrev pub AuthMode : Bool → Bytes → ℕ → Type 0
AuthMode known code auth =
    (auth ≡ 0) × (known ≡ true)
    ⊎ (auth ≡ 1) × (known ≡ false) × (code ≡ show_ℤ (atoi code)) × (length code ≡ 5)
    ⊎ (auth ≡ 2) × (known ≡ false) × ((code ≢ show_ℤ (atoi code)) ⊎ (length code ≢ 5))

auth_mode_lem :
    (known : Bool) (code : Bytes)
    → AuthMode known code (if known then 0 else if is_text_code code then 2 else 1)
unfolding is_text_code
auth_mode_lem true code = inl (refl, refl)
auth_mode_lem false code = elim (Bool-cases (str_eq code (show_ℤ (atoi code)))) [
  | inr other ↦
      let ne : code ≢ show_ℤ (atoi code) = λ e. cc ((str_eq_iff code (show_ℤ (atoi code))).1 e) in
      rw other (inr (inr (refl, refl, inl ne)))
  | inl same ↦ elim (Bool-cases (length code == 5)) [
    | inl five ↦
        rw (same, five)
          (inr (inl (refl, refl, (str_eq_iff code (show_ℤ (atoi code))).0 same, ground arith)))
    | inr not_five ↦
        let ne : length code ≢ 5 = ground arith in
        rw (same, not_five) (inr (inr (refl, refl, inr ne)))
  ]
]

module _ (libs : Libs) (standard : Standard) (config : Config) (stats : Stats) where
  parse-IsRequest :
      (text : Bytes) (p : Peer) (code : ℕ) (root : Node)
      → IsRequest libs text code root
      → parse libs standard config stats text p
        ≡ on_request libs standard config stats (pos code) root p
  unfolding parse parse_root
  parse-IsRequest text p code root r = rw (r.reads, r.named, r.type_is, r.code_is)

  -- A request of type 102 with a code: for the passcode the connection's client is authenticated,
  -- and no other client's standing changes; the reply accepts. For any other code the set of
  -- clients and the connection stay as they are, and the reply rejects.
  pub parse_code :
      (text code : Bytes) (p : Peer) (root : Node)
      → IsRequest libs text 102 root
      → get_prop root (codes "code") ≡ some code
      → (q : Peer) × (parse libs standard config stats text p ≡ done q)
        × (q.socket ≡ p.socket)
        × ((code ≡ server_code config)
              × (q.sent ≡ p.sent ++ isr_accept_code ∷ [])
              × ((uuid : Bytes)
                  → is_authenticated q.clients uuid
                    ≡ (if is_authenticated p.clients uuid then true else str_eq p.socket.uuid uuid))
            ⊎ (code ≢ server_code config)
              × (q.sent ≡ p.sent ++ isr_reject_code ∷ [])
              × (q.clients ≡ p.clients))
  unfolding on_request on_code
  parse_code text code p root r shown = elim (Bool-cases (str_eq code (server_code config))) [
    | inl right ↦ (
      send_text isr_accept_code (record p { clients = authenticate p.clients p.socket.uuid }),
      parse-IsRequest text p 102 root r ∙ rw (shown, right),
      refl,
      inl (
        (str_eq_iff code (server_code config)).0 right,
        refl,
        is_authenticated-authenticate p.clients p.socket.uuid,
      ),
    )
    | inr wrong ↦ (
      send_text isr_reject_code p,
      parse-IsRequest text p 102 root r ∙ rw (shown, wrong),
      refl,
      inr ((λ e. cc ((str_eq_iff code (server_code config)).1 e)), refl, refl),
    )
  ]

  -- A greeting of type 101 with a uuid and a name takes both over into the connection and changes
  -- nothing else; the reply says 0 where the client is known, and else 1 where the passcode is a
  -- number of five digits, and 2 where it is any other text.
  pub parse_hello :
      (text uuid name : Bytes) (p : Peer) (root : Node)
      → IsRequest libs text 101 root
      → get_prop root (codes "uuid") ≡ some uuid
      → get_prop root (codes "name") ≡ some name
      → (auth : ℕ) × (parse libs standard config stats text p
          ≡ done (record p {
            socket = record (p.socket) { uuid = uuid; name = name };
            sent =
                p.sent
                ++ isr_serverinfo p.socket.session auth p.socket.server_uuid stats.history_enabled
                  ∷ [];
          }))
        × AuthMode (is_authenticated p.clients uuid) (server_code config) auth
  unfolding on_request on_hello auth_mode is_text_code
  parse_hello text uuid name p root r u n = (
    auth_mode config p.clients uuid,
    parse-IsRequest text p 101 root r ∙ rw (u, n),
    auth_mode_lem (is_authenticated p.clients uuid) (server_code config),
  )

  -- A request `isr` with no `type`, a connect with no `protocol`, a greeting with no `uuid` or no
  -- `name`, and a passcode request with no `code` read a null pointer, whoever sends them.
  pub parse_crashes :
      (text : Bytes) (p : Peer) (root : Node)
      → libs.read_memory text ≡ some root
      → has_name root (codes "isr") ≡ true
      → (get_prop root (codes "type") ≡ none)
        ⊎ IsRequest libs text 100 root × (get_prop root (codes "protocol") ≡ none)
        ⊎ IsRequest libs text 101 root × (get_prop root (codes "uuid") ≡ none)
        ⊎ IsRequest libs text 101 root × (get_prop root (codes "name") ≡ none)
        ⊎ IsRequest libs text 102 root × (get_prop root (codes "code") ≡ none)
      → parse libs standard config stats text p ≡ crash
  unfolding parse parse_root on_request on_connect on_hello on_code
  parse_crashes text p root reads named (inl e) = rw (reads, named, e)
  parse_crashes text p root reads named (inr (inl (r, e))) =
      parse-IsRequest text p 100 root r ∙ rw e
  parse_crashes text p root reads named (inr (inr (inl (r, e)))) =
      parse-IsRequest text p 101 root r ∙ rw e
  parse_crashes text p root reads named (inr (inr (inr (inl (r, e))))) =
      parse-IsRequest text p 101 root r ∙ elim (Option-cases (get_prop root (codes "uuid"))) [
        | inl no_uuid ↦ rw no_uuid
        | inr (uuid, u) ↦ rw (u, e)
      ]
  parse_crashes text p root reads named (inr (inr (inr (inr (r, e))))) =
      parse-IsRequest text p 102 root r ∙ rw e
