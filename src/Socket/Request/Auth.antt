-- ===== src/Socket/Request/Auth.antt =====
-- Who gets to see the collected data in `Socket::parse` of src/Socket.cpp: the passcode and the set
-- of known clients.
pub mod Reply
use istatserverlinux.Prelude.{
  ℕ, Bool, true, false, not, List, [], ◌∷◌, ◌++◌, Option, none, some, ◌≡◌, ◌≢◌, refl, sym, ap, ◌∙◌,
  ◌⊎◌, inl, inr, arith, if◌then◌else◌, Bool-cases, Option-cases, subst, fun_ext,
}
use istatserverlinux.Prelude.Int.{ℤ, pos, eqb_ℤ}
use istatserverlinux.Prelude.Outcome.{
  Outcome, done, crash, no_fuel, deref, ◌>>=◌, >>=-eq-done, deref-eq-done,
}
use istatserverlinux.Text.{Bytes, codes, str_eq, str_eq_iff}
use istatserverlinux.Text.Number.{atoi}
use istatserverlinux.Xml.{Node, get_prop, has_name, children, Libs}
use istatserverlinux.Conf.{Config}
use istatserverlinux.Clientset.{ClientSet, authenticate, is_authenticated}
use istatserverlinux.Clientset.Membership.{is_authenticated-authenticate}
use istatserverlinux.Stats.{Standard, Stats}
use istatserverlinux.Socket.{Socket}
use istatserverlinux.Socket.Request.{
  Peer, children_data, framed_texts, payload_open, server_code, on_connect, on_hello, on_code,
  on_data, on_request, parse_root, parse,
}

module _ (libs : Libs) (standard : Standard) (config : Config) (stats stats' : Stats) where
  on_data-unauthenticated :
      (cur : Node) (p : Peer)
      → is_authenticated p.clients p.socket.uuid ≡ false
      → on_data libs standard stats cur p ≡ on_data libs standard stats' cur p
  unfolding on_data
  on_data-unauthenticated cur p u = rw u

  on_hello-history :
      (cur : Node) (p : Peer)
      → stats.history_enabled ≡ stats'.history_enabled
      → on_hello config stats cur p ≡ on_hello config stats' cur p
  unfolding on_hello
  on_hello-history cur p e = rw e

  on_request-unauthenticated :
      (code : ℤ) (cur : Node) (p : Peer)
      → is_authenticated p.clients p.socket.uuid ≡ false
      → stats.history_enabled ≡ stats'.history_enabled
      → on_request libs standard config stats code cur p
        ≡ on_request libs standard config stats' code cur p
  unfolding on_request
  on_request-unauthenticated code cur p u e =
      rw (on_data-unauthenticated cur p u, on_hello-history cur p e)

  parse_root-unauthenticated :
      (root : Option Node) (p : Peer)
      → is_authenticated p.clients p.socket.uuid ≡ false
      → stats.history_enabled ≡ stats'.history_enabled
      → parse_root libs standard config stats root p ≡ parse_root libs standard config stats' root p
  unfolding parse_root
  parse_root-unauthenticated none p u e = refl
  parse_root-unauthenticated (some cur) p u e =
      ap
        (λ (f : Bytes → Outcome Peer).
          if has_name cur (codes "isr") then deref (get_prop cur (codes "type")) >>= f else done p)
        (fun_ext (λ t. on_request-unauthenticated (atoi t) cur p u e))

  -- The outcome of any request of a client that is not authenticated, its replies included, is the
  -- same for any other collected data with the same setting of the history: it tells nothing of the
  -- data.
  pub parse-unauthenticated :
      (text : Bytes) (p : Peer)
      → is_authenticated p.clients p.socket.uuid ≡ false
      → stats.history_enabled ≡ stats'.history_enabled
      → parse libs standard config stats text p ≡ parse libs standard config stats' text p
  unfolding parse
  parse-unauthenticated text p = parse_root-unauthenticated (libs.read_memory text) p

-- The text is a request of type 102 that shows the passcode of the configuration.
pub record ShowsCode (libs : Libs) (config : Config) (text : Bytes) : Type 0 where
  pub root : Node
  pub type : Bytes
  pub reads : libs.read_memory text ≡ some root
  pub named : has_name root (codes "isr") ≡ true
  pub type_is : get_prop root (codes "type") ≡ some type
  pub is_code : eqb_ℤ (atoi type) (pos 102) ≡ true
  pub shown : get_prop root (codes "code") ≡ some (server_code config)

-- What a request leaves of the set of clients: the set as it was, or with the socket's client added
-- for the passcode.
abbrev Change : Config → ℤ → Node → Peer → Peer → Type 0
Change config code cur p q =
    (q.clients ≡ p.clients)
    ⊎ ((eqb_ℤ code (pos 102) ≡ true)
        × (get_prop cur (codes "code") ≡ some (server_code config))
        × (q.clients ≡ authenticate p.clients p.socket.uuid))

module _ (libs : Libs) (standard : Standard) (config : Config) (stats : Stats) where
  on_connect-clients : (cur : Node) (p q : Peer) → on_connect cur p ≡ done q → q.clients ≡ p.clients
  unfolding on_connect
  on_connect-clients cur p q h = ground arith

  on_hello-clients :
      (cur : Node) (p q : Peer) → on_hello config stats cur p ≡ done q → q.clients ≡ p.clients
  unfolding on_hello
  on_hello-clients cur p q h = ground arith

  on_data-clients :
      (cur : Node) (p q : Peer) → on_data libs standard stats cur p ≡ done q → q.clients ≡ p.clients
  unfolding on_data
  on_data-clients cur p q h =
      let (body, _, e) =
        >>=-eq-done
          (if is_authenticated p.clients p.socket.uuid
            then children_data standard stats (children cur)
            else done [])
          (λ body. done (record p {
            sent = p.sent ++ framed_texts libs (payload_open ++ (body ++ codes "</isr>"));
          }))
          h in
      ground arith

  on_code-Change :
      (code : ℤ) (cur : Node) (p q : Peer)
      → eqb_ℤ code (pos 102) ≡ true
      → on_code config cur p ≡ done q
      → Change config code cur p q
  unfolding on_code
  on_code-Change code cur p q e102 h = elim (Option-cases (get_prop cur (codes "code"))) [
    | inl none_shown ↦ absurd (ground (arith, h))
    | inr (shown, e) ↦ elim (Bool-cases (str_eq shown (server_code config))) [
      | inr wrong ↦ inl (ground arith)
      | inl right ↦
          inr (e102, e ∙ ap some ((str_eq_iff shown (server_code config)).0 right), ground arith)
    ]
  ]

  on_request-Change :
      (code : ℤ) (cur : Node) (p q : Peer)
      → on_request libs standard config stats code cur p ≡ done q
      → Change config code cur p q
  unfolding on_request
  on_request-Change code cur p q h = elim (Bool-cases (eqb_ℤ code (pos 100))) [
    | inl e ↦ inl (on_connect-clients cur p q (rw e at h))
    | inr e0 ↦ elim (Bool-cases (eqb_ℤ code (pos 101))) [
      | inl e ↦ inl (on_hello-clients cur p q (rw (e0, e) at h))
      | inr e1 ↦ elim (Bool-cases (eqb_ℤ code (pos 102))) [
        | inl e ↦ on_code-Change code cur p q e (rw (e0, e1, e) at h)
        | inr e2 ↦ elim (Bool-cases (eqb_ℤ code (pos 103))) [
          | inl e ↦ inl (on_data-clients cur p q (rw (e0, e1, e2, e) at h))
          | inr e ↦ let last : done p ≡ done q = rw (e0, e1, e2, e) at h in inl (ground arith)
        ]
      ]
    ]
  ]

  -- A request that is answered adds a client to the authenticated ones only if it shows the passcode
  -- of the configuration, and then only the client that the connection has named before.
  pub is_authenticated-parse :
      (text : Bytes) (p q : Peer) (uuid : Bytes)
      → parse libs standard config stats text p ≡ done q
      → is_authenticated q.clients uuid ≡ true
      → (is_authenticated p.clients uuid ≡ true)
        ⊎ (ShowsCode libs config text × (uuid ≡ p.socket.uuid))
  unfolding parse parse_root
  is_authenticated-parse text p q uuid h known = by_root (libs.read_memory text) refl h
    where
      kept : q.clients ≡ p.clients → is_authenticated p.clients uuid ≡ true
      kept e = rw e at known

      added :
          q.clients ≡ authenticate p.clients p.socket.uuid
          → (is_authenticated p.clients uuid ≡ true) ⊎ (uuid ≡ p.socket.uuid)
      added e = elim (Bool-cases (is_authenticated p.clients uuid)) [
        | inl old ↦ inl old
        | inr new ↦ inr (
            sym (
              (str_eq_iff p.socket.uuid uuid).0
                (rw (e, is_authenticated-authenticate p.clients p.socket.uuid uuid, new) at known)))
      ]

      by_root :
          (r : Option Node)
          → libs.read_memory text ≡ r
          → parse_root libs standard config stats r p ≡ done q
          → (is_authenticated p.clients uuid ≡ true)
            ⊎ (ShowsCode libs config text × (uuid ≡ p.socket.uuid))
      by_root none e g = inl (kept (ground arith))
      by_root (some root) e g = elim (Bool-cases (has_name root (codes "isr"))) [
        | inr other ↦ let last : done p ≡ done q = rw other at g in inl (kept (ground arith))
        | inl named ↦
            let (type, t, req) =
              >>=-eq-done (deref (get_prop root (codes "type")))
                (λ type. on_request libs standard config stats (atoi type) root p)
                (rw named at g) in
            elim (on_request-Change (atoi type) root p q req) [
              | inl same ↦ inl (kept same)
              | inr (is_code, shown, new) ↦ elim (added new) [
                | inl old ↦ inl old
                | inr is_own ↦ inr (
                  record {
                    root = root;
                    type = type;
                    reads = e;
                    named = named;
                    type_is = deref-eq-done (get_prop root (codes "type")) t;
                    is_code = is_code;
                    shown = shown;
                  },
                  is_own,
                )
              ]
            ]
      ]
