-- ===== src/Responses/Samples/Newest.antt =====
-- Which samples of a deque a reply of src/Responses.cpp holds.
use istatserverlinux.Prelude.{
  ℕ, ◌≤◌, ◌<◌, Bool, true, false, List, [], ◌∷◌, ◌++◌, ◌≡◌, refl, sym, ◌∙◌, ap, arith, All,
  append_assoc, append-nil, Bool-cases, inl, inr,
}
use istatserverlinux.Prelude.Int.{ℤ}
use istatserverlinux.Stats.{Sample}
use istatserverlinux.Responses.Samples.{newer_double, newer_long, collect, newer_samples}

module _ {V : Type 0} where
  -- The newest sample first, as the collectors push them.
  abbrev pub IsNewestFirst : List (Sample V) → Type 0
  IsNewestFirst [] = Unit
  IsNewestFirst (s ∷ rest) = All (λ t. t.sample_id < s.sample_id) rest × IsNewestFirst rest

  abbrev pub reversed : List (Sample V) → List (Sample V)
  reversed [] = []
  reversed (s ∷ rest) = reversed rest ++ s ∷ []

  -- The deque is cut in two: `front` has the samples that are newer, `back` the others.
  pub record Cut (newer : ℕ → Bool) (deque : List (Sample V)) : Type 0 where
    pub front : List (Sample V)
    pub back : List (Sample V)
    pub cut_is : deque ≡ front ++ back
    pub front_newer : All (λ s. newer s.sample_id ≡ true) front
    pub back_older : All (λ s. newer s.sample_id ≡ false) back

  module _ (newer : ℕ → Bool) (older : (i j : ℕ) → i ≤ j → newer j ≡ false → newer i ≡ false) where
    all_older :
        (s : Sample V) (rest : List (Sample V))
        → newer s.sample_id ≡ false
        → All (λ t. t.sample_id < s.sample_id) rest
        → All (λ t. newer t.sample_id ≡ false) rest
    all_older s [] e h = tt
    all_older s (t ∷ rest) e h =
        (older t.sample_id s.sample_id (omega (arith, h.0)) e, all_older s rest e h.1)

    collect-Cut :
        (out deque : List (Sample V))
        → IsNewestFirst deque
        → (c : Cut newer deque) × (collect newer out deque ≡ reversed c.front ++ out)
    unfolding collect
    collect-Cut out [] h =
        (record { front = []; back = []; cut_is = refl; front_newer = tt; back_older = tt }, refl)
    collect-Cut out (s ∷ rest) h = elim (Bool-cases (newer s.sample_id)) [
      | inl e ↦
          let (c, r) = collect-Cut (s ∷ out) rest h.1 in
          (
            record {
              front = s ∷ c.front;
              back = c.back;
              cut_is = ap (◌∷◌ s) c.cut_is;
              front_newer = (e, c.front_newer);
              back_older = c.back_older;
            },
            rw (e, collect) (r ∙ sym (append_assoc (reversed c.front) (s ∷ []) out)),
          )
      | inr e ↦ (
        record {
          front = [];
          back = s ∷ rest;
          cut_is = refl;
          front_newer = tt;
          back_older = (e, all_older s rest e h.0);
        },
        rw (e, collect) refl,
      )
    ]

-- Of a deque with the newest sample first, a reply holds just the samples that are newer than the
-- one the client names, the oldest of them first; with the bound as the client's double or as the
-- integer it is converted to.
pub newer_samples_lem :
    {V : Type 0} (bound : ℤ) (deque : List (Sample V))
    → IsNewestFirst deque
    → ((c : Cut (newer_double bound) deque) × (newer_samples (newer_double bound) deque
          ≡ reversed c.front))
      × ((c : Cut (newer_long bound) deque) × (newer_samples (newer_long bound) deque
            ≡ reversed c.front))
newer_samples_lem bound deque h =
    let (c, e) = collect-Cut (newer_double bound) (λ i j le older. ground arith) [] deque h in
    let (d, f) = collect-Cut (newer_long bound) (λ i j le older. ground arith) [] deque h in
    ((c, e ∙ append-nil (reversed c.front)), (d, f ∙ append-nil (reversed d.front)))
