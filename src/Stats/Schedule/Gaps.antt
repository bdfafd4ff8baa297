-- ===== src/Stats/Schedule/Gaps.antt =====
-- The next time of the schedule in `fillGapsAtIndex` of src/stats/StatBase.cpp.
use istatserverlinux.Prelude.{
  ℕ, zero, suc, ◌+◌, ◌-◌, ◌*◌, ◌≤◌, ◌<◌, ◌≡◌, ◌≢◌, refl, ap, ◌∙◌, ◌⊎◌, inl, inr, arith, ltb, ◌==◌,
  Bool-cases,
}
use istatserverlinux.Prelude.Outcome.{done}
use istatserverlinux.Stats.Schedule.{SampleIndex, second, ceil, skip_gaps, fill_gaps_at_index}

-- `j` is `i` some whole number of intervals later, the first that is not before `now`.
pub record IsCaughtUp (now : ℕ) (i j : SampleIndex) : Type 0 where
  pub missed : ℕ
  pub id_is : j.sample_id ≡ i.sample_id + missed
  pub next_is : j.next_time ≡ i.next_time + missed * i.interval
  pub interval_is : j.interval ≡ i.interval
  pub time_is : j.time ≡ i.time
  pub reached : now ≤ j.next_time
  pub not_before : (missed ≡ 0) ⊎ (j.next_time < now + i.interval)

skip_gaps-IsCaughtUp :
    (fuel now : ℕ) (i : SampleIndex)
    → 0 < i.interval
    → now - i.next_time < fuel
    → (j : SampleIndex) × (skip_gaps fuel now i ≡ done j) × IsCaughtUp now i j
unfolding skip_gaps
skip_gaps-IsCaughtUp zero now i p h = absurd (omega arith)
skip_gaps-IsCaughtUp (suc fuel) now i p h = elim (Bool-cases (ltb i.next_time now)) [
  | inr e ↦ (
    i,
    rw (e, skip_gaps) refl,
    record {
      missed = 0;
      id_is = omega arith;
      next_is = omega arith;
      interval_is = refl;
      time_is = refl;
      reached = ground (arith, e);
      not_before = inl refl;
    },
  )
  | inl e ↦
      let early : i.next_time < now = ground (arith, e) in
      let (j, r, c) =
        skip_gaps-IsCaughtUp fuel now
          (record i { next_time = i.next_time + i.interval; sample_id = i.sample_id + 1 }) p
          (omega (arith, h, p, early)) in
      (
        j,
        rw (e, skip_gaps) r,
        record {
          missed = suc c.missed;
          id_is = omega (arith, c.id_is);
          next_is = grind (arith, c.next_is);
          interval_is = c.interval_is;
          time_is = c.time_is;
          reached = c.reached;
          not_before = inr (elim (c.not_before) [
            | inl z ↦
                let next : j.next_time ≡ i.next_time + i.interval + 0 * i.interval =
                  c.next_is ∙ ap (λ m. i.next_time + i.interval + m * i.interval) z in
                omega (arith, next, early)
            | inr b ↦ b
          ]);
        },
      )
]

-- With an interval above 0 and more rounds than microseconds to catch up, `fillGapsAtIndex` ends. An
-- interval with no sample begins less than a second after now; any other goes on at a whole number
-- of intervals, with as many numbers left out, at the first time that is not before now.
pub fill_gaps_at_index_lem :
    (fuel now : ℕ) (i : SampleIndex)
    → 0 < i.interval
    → now - i.next_time < fuel
    → (j : SampleIndex) × (fill_gaps_at_index fuel now i ≡ done j)
      × ((i.next_time ≡ 0)
            × (j.sample_id ≡ i.sample_id)
            × (j.next_time ≡ j.time + i.interval)
            × (now ≤ j.time)
            × (j.time < now + second)
          ⊎ (i.next_time ≢ 0) × IsCaughtUp now i j)
unfolding fill_gaps_at_index
fill_gaps_at_index_lem fuel now i p h = elim (Bool-cases (i.next_time == 0)) [
  | inl e ↦ (
    record i { next_time = ceil now + i.interval; time = ceil now },
    rw e refl,
    inl (ground (arith, e), refl, refl, omega arith, omega arith),
  )
  | inr e ↦
      let (j, r, c) = skip_gaps-IsCaughtUp fuel now i p h in (j, rw e r, inr (ground (arith, e), c))
]
