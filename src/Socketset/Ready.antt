-- ===== src/Socketset/Ready.antt =====
-- Which connection src/Socketset.cpp finds ready.
use istatserverlinux.Prelude.{
  ℕ, suc, ◌+◌, ◌<◌, Bool, true, List, [], ◌∷◌, some, ◌≡◌, refl, inl, inr, arith, ◌==◌, get_elem?,
  Bool-cases, sym, ◌∙◌,
}
use istatserverlinux.Socket.{Socket}
use istatserverlinux.Socketset.{SocketSet, ready_slot, get_ready, get_status}
use istatserverlinux.Socketset.Valid.{has_id, IsValid}

-- What select promises: with a positive count, a descriptor below the number it is given is watched
-- and ready.
abbrev pub IsSelect : (ℕ → (ℕ → Bool) → ℕ × (ℕ → Bool)) → Type 0
IsSelect select =
    (nfds : ℕ) (watched : ℕ → Bool)
    → 0 < (select nfds watched).0
    → (id : ℕ) × (id < nfds) × (watched id ≡ true) × ((select nfds watched).1 id ≡ true)

ready_slot-found :
    (ready : ℕ → Bool) (cs : List Socket) (id : ℕ)
    → has_id cs id ≡ true
    → ready id ≡ true
    → (slot : ℕ) × (socket : Socket) × (ready_slot ready cs ≡ some slot)
      × (get_elem? cs slot ≡ some socket)
      × (ready socket.id ≡ true)
unfolding ready_slot
ready_slot-found ready [] id h r = absurd (ground arith)
ready_slot-found ready (c ∷ cs) id h r = elim (Bool-cases (ready c.id)) [
  | inl e ↦ (0, c, rw e refl, refl, e)
  | inr e ↦ elim (Bool-cases (id == c.id)) [
    | inl same ↦ let here : id ≡ c.id = ground (arith, same) in absurd (cc (r, e, here))
    | inr other ↦
        let (slot, socket, f, g, t) = ready_slot-found ready cs id (rw other at h) r in
        (suc slot, socket, rw (e, f) refl, g, t)
  ]
]

-- Where select counts a ready descriptor on a valid set, `get_ready` refers to a connection of the
-- set whose descriptor is ready.
pub get_ready-get_status :
    (select : ℕ → (ℕ → Bool) → ℕ × (ℕ → Bool)) (s : SocketSet)
    → IsSelect select
    → IsValid s
    → 0 < (get_status select s).0
    → (socket : Socket) × (get_elem? s.connections (get_ready (get_status select s).1)
        ≡ some socket)
      × ((get_status select s).1.readyset socket.id ≡ true)
unfolding get_status get_ready
get_ready-get_status select s honest v counted =
    let (id, below, watched, ready) = honest (s.highest + 1) s.socketset counted in
    let (slot, socket, f, g, t) =
      ready_slot-found (select (s.highest + 1) s.socketset).1 s.connections id
        (sym (v.tracked id) ∙ watched) ready in
    (socket, rw f g, t)
