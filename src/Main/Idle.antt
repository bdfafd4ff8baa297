-- ===== src/Main/Idle.antt =====
-- Which connections the loop of src/main.cpp removes for their silence.
use istatserverlinux.Prelude.{
  ℕ, zero, suc, ◌+◌, ◌<◌, true, false, not, ◌||◌, leb, List, [], ◌∷◌, none, some, ◌≡◌, refl, ap,
  sym, ◌∙◌, ◌⊎◌, inl, inr, arith, ◌==◌, if◌then◌else◌, length, get_elem?, Bool-cases,
}
use istatserverlinux.Prelude.Outcome.{done}
use istatserverlinux.Socket.{Socket}
use istatserverlinux.Socketset.{SocketSet, erase_id}
use istatserverlinux.Socketset.Valid.{has_id, AreDistinct, IsValid, remove_socket-IsValid}
use istatserverlinux.Main.{is_idle, idle_slot, remove_idle}

-- The listener, and the connections whose last request is at most 120 seconds old, in their order.
abbrev pub awake : ℕ → List Socket → List Socket
awake now [] = []
awake now (c ∷ cs) =
    if c.is_server || leb now (c.last_request + 120_000_000) then c ∷ awake now cs else awake now cs

is_idle_lem :
    (now : ℕ) (c : Socket)
    → is_idle now c ≡ not (c.is_server || leb now (c.last_request + 120_000_000))
unfolding is_idle
is_idle_lem now c = ground arith

idle_slot_lem :
    (now : ℕ) (cs : List Socket)
    → AreDistinct cs
    → (idle_slot now cs ≡ none) × (awake now cs ≡ cs)
      ⊎ ((slot : ℕ) × (c : Socket) × (idle_slot now cs ≡ some slot)
          × (get_elem? cs slot ≡ some c)
          × (has_id cs c.id ≡ true)
          × (awake now (erase_id c.id cs) ≡ awake now cs)
          × (length (erase_id c.id cs) < length cs))
unfolding idle_slot erase_id
idle_slot_lem now [] d = inl (refl, refl)
idle_slot_lem now (c ∷ cs) d = elim (Bool-cases (is_idle now c)) [
  | inl e ↦
      let stays : (c.is_server || leb now (c.last_request + 120_000_000)) ≡ false =
        ground (arith, e, is_idle_lem now c) in
      inr (0, c, rw e refl, refl, ground arith, rw stays (ground arith), ground arith)
  | inr e ↦
      let stays : (c.is_server || leb now (c.last_request + 120_000_000)) ≡ true =
        ground (arith, e, is_idle_lem now c) in
      elim (idle_slot_lem now cs d.1) [
        | inl (f, g) ↦ inl (rw (e, f) refl, rw (stays, g) refl)
        | inr (slot, b, f, g, h, w, l) ↦
            let other : (c.id == b.id) ≡ false = elim (Bool-cases (c.id == b.id)) [
              | inr n ↦ n
              | inl y ↦ let same : c.id ≡ b.id = ground (arith, y) in absurd (cc (d.0, h, same))
            ] in
            inr (
              suc slot,
              b,
              rw (e, f) refl,
              g,
              ground (arith, h),
              rw (other, stays, w) refl,
              rw other (omega (arith, l)),
            )
      ]
]

-- With more rounds than connections the loop over the idle ones ends, on a valid set: the
-- connections whose last request is more than 120 seconds before the time now are gone, unless they
-- have the flag of a server; the others are left in their order, and the set is valid.
pub remove_idle_lem :
    (fuel stray now : ℕ) (s : SocketSet)
    → IsValid s
    → length s.connections < fuel
    → (t : SocketSet) × (remove_idle fuel stray now s ≡ done t)
      × (t.connections ≡ awake now s.connections)
      × IsValid t
unfolding remove_idle
remove_idle_lem zero stray now s v h = absurd (omega arith)
remove_idle_lem (suc fuel) stray now s v h = elim (idle_slot_lem now s.connections v.distinct) [
  | inl (e, a) ↦ (s, rw (e, remove_idle) refl, sym a, v)
  | inr (slot, c, e, f, g, w, l) ↦
      let (t, r, k, gone, valid) = remove_socket-IsValid stray s slot c v f in
      let (u, q, a, fine) =
        remove_idle_lem fuel stray now t valid (omega (arith, h, l, ap length k)) in
      (u, rw (e, remove_idle, r) q, a ∙ ap (awake now) k ∙ w, fine)
]
