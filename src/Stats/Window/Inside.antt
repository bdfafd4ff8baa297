-- ===== src/Stats/Window/Inside.antt =====
-- The loop of `historyItemAtIndex` against the samples that stand in its window.
use istatserverlinux.Prelude.{
  ℕ, ◌+◌, ◌-◌, ◌≤◌, ◌<◌, true, false, ◌&&◌, List, [], ◌∷◌, ltb, leb, ◌==◌, if◌then◌else◌, length,
  ◌≡◌, refl, arith, All, Bool-cases, inl, inr,
}
use istatserverlinux.Stats.{Sample}
use istatserverlinux.Stats.Schedule.{SampleIndex}
use istatserverlinux.Stats.Window.{fold_window, fold_interval}

module _ {V : Type 0} where
  -- Each sample is at least as late as all behind it.
  abbrev pub IsLatestFirst : List (Sample V) → Type 0
  IsLatestFirst [] = Unit
  IsLatestFirst (s ∷ rest) = All (λ t. t.time ≤ s.time) rest × IsLatestFirst rest

  -- The samples from one time to the other, wherever they stand.
  abbrev pub inside : ℕ → ℕ → List (Sample V) → List (Sample V)
  inside minimum maximum [] = []
  inside minimum maximum (s ∷ rest) =
      if leb minimum s.time && leb s.time maximum
      then s ∷ inside minimum maximum rest
      else inside minimum maximum rest

  inside_below :
      (minimum maximum time : ℕ) (samples : List (Sample V))
      → time < minimum
      → All (λ t. t.time ≤ time) samples
      → inside minimum maximum samples ≡ []
  inside_below minimum maximum time [] h a = refl
  inside_below minimum maximum time (s ∷ rest) h a =
      ground (arith, inside_below minimum maximum time rest h a.1, a.0)

module _ {V S : Type 0} (step : S → V → S) where
  abbrev pub fold : S → List (Sample V) → S
  fold sums [] = sums
  fold sums (s ∷ rest) = fold (step sums s.values) rest

  fold_window-inside :
      (minimum maximum : ℕ) (sums : S) (count : ℕ) (samples : List (Sample V))
      → IsLatestFirst samples
      → ((fold_window step minimum maximum sums count samples).0
          ≡ fold sums (inside minimum maximum samples))
        × ((fold_window step minimum maximum sums count samples).1
            ≡ count + length (inside minimum maximum samples))
  unfolding fold_window
  fold_window-inside minimum maximum sums count [] h = (refl, omega arith)
  fold_window-inside minimum maximum sums count (s ∷ rest) h =
      let skip = fold_window-inside minimum maximum sums count rest h.1 in
      let on = fold_window-inside minimum maximum (step sums s.values) (count + 1) rest h.1 in
      elim (Bool-cases (ltb maximum s.time)) [
        | inl above ↦
            let out : (leb minimum s.time && leb s.time maximum) ≡ false = ground (arith, above) in
            rw (above, fold_window, out) skip
        | inr not_above ↦ elim (Bool-cases (ltb s.time minimum)) [
          | inl below ↦
              let out : (leb minimum s.time && leb s.time maximum) ≡ false =
                ground (arith, below) in
              rw
                (
                  not_above,
                  fold_window,
                  below,
                  out,
                  inside_below minimum maximum s.time rest (ground (arith, below)) h.0,
                )
                (refl, omega arith)
          | inr not_below ↦
              let at : (leb minimum s.time && leb s.time maximum) ≡ true =
                ground (arith, not_above, not_below) in
              rw (not_above, fold_window, not_below, at) (on.0, omega (arith, on.1))
        ]
      ]

  -- Where the samples are in order, the loop that makes a history item folds exactly the samples of
  -- the interval that ends at its time, the end included and for the shortest interval 0.99 seconds
  -- beyond it, and counts them.
  pub fold_interval-inside :
      (i : SampleIndex) (sums : S) (samples : List (Sample V))
      → IsLatestFirst samples
      → let maximum = if i.history_index == 0 then i.time + 990_000 else i.time in
        ((fold_interval step i sums samples).0
          ≡ fold sums (inside (i.time - i.interval) maximum samples))
        × ((fold_interval step i sums samples).1
            ≡ length (inside (i.time - i.interval) maximum samples))
  unfolding fold_interval
  fold_interval-inside i sums samples h =
      let (s, n) =
        fold_window-inside (i.time - i.interval)
          (if i.history_index == 0 then i.time + 990_000 else i.time) sums 0 samples h in
      (s, omega (arith, n))
