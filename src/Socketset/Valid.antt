-- ===== src/Socketset/Valid.antt =====
-- The invariant of src/Socketset.cpp under its operations.
use istatserverlinux.Prelude.{
  ℕ, ◌≤◌, ◌<◌, Bool, true, false, List, [], ◌∷◌, ◌++◌, some, ◌≡◌, refl, ◌⊎◌, inl, inr, arith, ltb,
  leb, ◌==◌, if◌then◌else◌, get_elem?, All, All-append, Bool-cases, if-cases,
}
use istatserverlinux.Prelude.Outcome.{done, crash}
use istatserverlinux.Socket.{Socket}
use istatserverlinux.Socketset.{
  SocketSet, fd_setsize, added, add_socket, removed, erase_id, highest_of, moved_id, remove_socket,
}

abbrev pub has_id : List Socket → ℕ → Bool
has_id [] id = false
has_id (c ∷ cs) id = if id == c.id then true else has_id cs id

-- No descriptor is that of two connections.
abbrev pub AreDistinct : List Socket → Type 0
AreDistinct [] = Unit
AreDistinct (c ∷ cs) = (has_id cs c.id ≡ false) × AreDistinct cs

-- select watches just the descriptors of the connections, and looks at every one of them.
pub record IsValid (s : SocketSet) : Type 0 where
  pub bounded : All (λ c. c.id ≤ s.highest) s.connections
  pub small : All (λ c. c.id < fd_setsize) s.connections
  pub tracked : (id : ℕ) → s.socketset id ≡ has_id s.connections id
  pub distinct : AreDistinct s.connections

has_id-concat :
    (cs : List Socket) (c : Socket) (id : ℕ)
    → has_id (cs ++ c ∷ []) id ≡ (if id == c.id then true else has_id cs id)
has_id-concat [] c id = refl
has_id-concat (d ∷ cs) c id = ground (arith, has_id-concat cs c id)

AreDistinct-concat :
    (cs : List Socket) (c : Socket)
    → AreDistinct cs
    → has_id cs c.id ≡ false
    → AreDistinct (cs ++ c ∷ [])
AreDistinct-concat [] c d h = (refl, tt)
AreDistinct-concat (e ∷ cs) c d h = (
  ground (arith, has_id-concat cs c e.id, d.0, h),
  AreDistinct-concat cs c d.1 (ground (arith, h)),
)

All-le : (cs : List Socket) (m n : ℕ) → m ≤ n → All (λ c. c.id ≤ m) cs → All (λ c. c.id ≤ n) cs
All-le [] m n h a = tt
All-le (c ∷ cs) m n h a = (omega (arith, h, a.0), All-le cs m n h a.1)

added-IsValid :
    (s : SocketSet) (socket : Socket)
    → IsValid s
    → has_id s.connections socket.id ≡ false
    → socket.id < fd_setsize
    → IsValid (added s socket)
added-IsValid s socket v fresh low = record {
  bounded =
      All-append (λ c. c.id ≤ (added s socket).highest) s.connections (socket ∷ [])
        (All-le s.connections s.highest (added s socket).highest (ground arith) v.bounded)
        (ground arith, tt);
  small = All-append (λ c. c.id < fd_setsize) s.connections (socket ∷ []) v.small (low, tt);
  tracked = λ id. ground (arith, v.tracked id, has_id-concat s.connections socket id);
  distinct = AreDistinct-concat s.connections socket v.distinct fresh;
}

-- Added to a valid set, a connection with a descriptor that no other has, below FD_SETSIZE, comes
-- last, and the set stays valid; from FD_SETSIZE on, FD_SET writes outside of the set.
pub add_socket-IsValid :
    (s : SocketSet) (socket : Socket)
    → IsValid s
    → has_id s.connections socket.id ≡ false
    → (socket.id < fd_setsize)
        × ((t : SocketSet) × (add_socket s socket ≡ done t)
            × (t.connections ≡ s.connections ++ socket ∷ [])
            × IsValid t)
      ⊎ (fd_setsize ≤ socket.id) × (add_socket s socket ≡ crash)
unfolding add_socket
add_socket-IsValid s socket v fresh = elim (Bool-cases (leb fd_setsize socket.id)) [
  | inl e ↦ inr (ground (arith, e), rw e refl)
  | inr e ↦
      let low : socket.id < fd_setsize = ground (arith, e) in
      inl (low, (added s socket, rw e refl, refl, added-IsValid s socket v fresh low))
]

erase_id-All : (P : Socket → Type 0) (id : ℕ) (cs : List Socket) → All P cs → All P (erase_id id cs)
unfolding erase_id
erase_id-All P id [] h = tt
erase_id-All P id (c ∷ cs) h = elim (Bool-cases (c.id == id)) [
  | inl e ↦ rw e h.1
  | inr e ↦ rw e (h.0, erase_id-All P id cs h.1)
]

has_id-erase_id :
    (id other : ℕ) (cs : List Socket)
    → AreDistinct cs
    → has_id (erase_id id cs) other ≡ (if other == id then false else has_id cs other)
unfolding erase_id
has_id-erase_id id other [] d = ground arith
has_id-erase_id id other (c ∷ cs) d = elim (Bool-cases (c.id == id)) [
  | inl e ↦
      let same : c.id ≡ id = ground (arith, e) in
      elim (Bool-cases (other == id)) [
        | inl f ↦ let here : other ≡ c.id = ground (arith, f, same) in rw (e, f) (rw here d.0)
        | inr f ↦ ground (arith, e, f, same)
      ]
  | inr e ↦ ground (arith, e, has_id-erase_id id other cs d.1)
]

AreDistinct-erase_id : (id : ℕ) (cs : List Socket) → AreDistinct cs → AreDistinct (erase_id id cs)
unfolding erase_id
AreDistinct-erase_id id [] d = tt
AreDistinct-erase_id id (c ∷ cs) d = elim (Bool-cases (c.id == id)) [
  | inl e ↦ rw e d.1
  | inr e ↦
      rw e (ground (arith, has_id-erase_id id c.id cs d.1, d.0), AreDistinct-erase_id id cs d.1)
]

highest_of-bound :
    (h : ℕ) (cs : List Socket) → (h ≤ highest_of h cs) × All (λ c. c.id ≤ highest_of h cs) cs
unfolding highest_of
highest_of-bound h [] = (omega arith, tt)
highest_of-bound h (c ∷ cs) =
    let (le, all) = highest_of-bound (if ltb h c.id then c.id else h) cs in
    (ground (arith, le), (ground (arith, le), all))

removed-IsValid :
    (stray : ℕ) (s : SocketSet) (slot id : ℕ)
    → IsValid s
    → IsValid (removed stray s slot id (erase_id id s.connections))
removed-IsValid stray s slot id v = record {
  bounded =
      if-cases (λ h. All (λ c. c.id ≤ h) (erase_id id s.connections))
        (moved_id stray (get_elem? (erase_id id s.connections) slot) == s.highest)
        (highest_of 0 (erase_id id s.connections)) s.highest
        (λ _. (highest_of-bound 0 (erase_id id s.connections)).1)
        (λ _. erase_id-All (λ c. c.id ≤ s.highest) id s.connections v.bounded);
  small = erase_id-All (λ c. c.id < fd_setsize) id s.connections v.small;
  tracked = λ i. ground (arith, v.tracked i, has_id-erase_id id i s.connections v.distinct);
  distinct = AreDistinct-erase_id id s.connections v.distinct;
}

-- A connection removed from a valid set leaves the set valid, although the test for the highest
-- descriptor reads another connection, or memory that is no longer one, behind the reference.
pub remove_socket-IsValid :
    (stray : ℕ) (s : SocketSet) (slot : ℕ) (socket : Socket)
    → IsValid s
    → get_elem? s.connections slot ≡ some socket
    → (t : SocketSet) × (remove_socket stray s slot ≡ done t)
      × (t.connections ≡ erase_id socket.id s.connections)
      × (has_id t.connections socket.id ≡ false)
      × IsValid t
unfolding remove_socket
remove_socket-IsValid stray s slot socket v e = (
  removed stray s slot socket.id (erase_id socket.id s.connections),
  rw e refl,
  refl,
  ground (arith, has_id-erase_id socket.id socket.id s.connections v.distinct),
  removed-IsValid stray s slot socket.id v,
)
