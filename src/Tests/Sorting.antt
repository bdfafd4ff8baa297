-- ===== src/Tests/Sorting.antt =====
-- A sort as src/Responses.cpp needs one of the standard library: equal processes keep their order.
use mathlib.Core.List.Perm
use mathlib.Core.List.{Perm}
use istatserverlinux.Prelude.{
  Bool, false, List, [], ◌∷◌, ◌≡◌, All, Bool-cases, inl, inr, if◌then◌else◌,
}
use istatserverlinux.Stats.{ProcessInfo}
use istatserverlinux.Responses.Process.Top.{IsFalling, IsWeakOrder, IsSort}

unfoldable insert_sorted :
    (ProcessInfo → ProcessInfo → Bool) → ProcessInfo → List ProcessInfo → List ProcessInfo
insert_sorted before p [] = p ∷ []
insert_sorted before p (q ∷ ps) = if before q p then q ∷ insert_sorted before p ps else p ∷ q ∷ ps

unfoldable pub sort : (ProcessInfo → ProcessInfo → Bool) → List ProcessInfo → List ProcessInfo
unfolding insert_sorted
sort before [] = []
sort before (p ∷ ps) = insert_sorted before p (sort before ps)

module _ (before : ProcessInfo → ProcessInfo → Bool) where
  -- p does not go behind q.
  abbrev IsLater : ProcessInfo → ProcessInfo → Type 0
  IsLater p q = before q p ≡ false

  insert_sorted-perm :
      (p : ProcessInfo) (ps : List ProcessInfo) → Perm (insert_sorted before p ps) (p ∷ ps)
  unfolding insert_sorted
  insert_sorted-perm p [] = Perm.rfl
  insert_sorted-perm p (q ∷ ps) = elim (Bool-cases (before q p)) [
    | inl e ↦ rw e (Perm.trans (Perm.cons q (insert_sorted-perm p ps)) (Perm.swap p q ps))
    | inr e ↦ rw e Perm.rfl
  ]

  sort-perm : (ps : List ProcessInfo) → Perm (sort before ps) ps
  unfolding sort
  sort-perm [] = Perm.rfl
  sort-perm (p ∷ ps) =
      Perm.trans (insert_sorted-perm p (sort before ps)) (Perm.cons p (sort-perm ps))

  insert_sorted-All :
      (P : ProcessInfo → Type 0) (p : ProcessInfo) (ps : List ProcessInfo)
      → P p
      → All P ps
      → All P (insert_sorted before p ps)
  unfolding insert_sorted
  insert_sorted-All P p [] hp h = (hp, tt)
  insert_sorted-All P p (q ∷ ps) hp h = elim (Bool-cases (before q p)) [
    | inl e ↦ rw e (h.0, insert_sorted-All P p ps hp h.1)
    | inr e ↦ rw e (hp, h)
  ]

  module _ (order : IsWeakOrder before) where
    later :
        (p q : ProcessInfo) (ps : List ProcessInfo)
        → before q p ≡ false
        → All (λ r. before r q ≡ false) ps
        → All (λ r. before r p ≡ false) ps
    later p q [] e h = tt
    later p q (r ∷ ps) e h = (order.weak p q r e h.0, later p q ps e h.1)

    insert_sorted-IsSorted :
        (p : ProcessInfo) (ps : List ProcessInfo)
        → IsFalling IsLater ps
        → IsFalling IsLater (insert_sorted before p ps)
    unfolding insert_sorted
    insert_sorted-IsSorted p [] h = (tt, tt)
    insert_sorted-IsSorted p (q ∷ ps) h = elim (Bool-cases (before q p)) [
      | inl e ↦ rw e (
        insert_sorted-All (λ r. before r q ≡ false) p ps (order.asym q p e) h.0,
        insert_sorted-IsSorted p ps h.1,
      )
      | inr e ↦ rw e ((e, later p q ps e h.0), h)
    ]

    sort-IsSorted : (ps : List ProcessInfo) → IsFalling IsLater (sort before ps)
    unfolding sort
    sort-IsSorted [] = tt
    sort-IsSorted (p ∷ ps) = insert_sorted-IsSorted p (sort before ps) (sort-IsSorted ps)

pub sort-IsSort : IsSort sort
sort-IsSort = record {
  permutes = λ before order ps. sort-perm before ps;
  orders = λ before order ps. sort-IsSorted before order ps;
}
