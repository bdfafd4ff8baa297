-- ===== src/Stats/History/FiveMinutes.antt =====
-- What `historyItemAtIndex` of src/stats/StatsLoad.cpp makes of the three load averages.
use istatserverlinux.Prelude.{
  ℕ, ◌+◌, ◌-◌, List, [], ◌∷◌, ◌≡◌, refl, ltb, ◌==◌, if◌then◌else◌, map, Bool-cases, inl, inr,
}
use istatserverlinux.Stats.{Sample}
use istatserverlinux.Stats.Schedule.{SampleIndex}
use istatserverlinux.Stats.History.{Load, Arithmetic, sum_window, averages, history_item}

module _ {D : Type 0} (a : Arithmetic D) where
  -- The sample with its five-minute average replaced.
  abbrev pub with_two : (Sample (Load D) → D) → Sample (Load D) → Sample (Load D)
  with_two two s = record s { values = record (s.values) { two = two s } }

  sum_window-with_two :
      (two : Sample (Load D) → D) (minimum maximum count : ℕ) (s t : Load D)
      (from : List (Sample (Load D)))
      → s.one ≡ t.one
      → s.three ≡ t.three
      → averages a (sum_window a minimum maximum s count (map (with_two two) from))
        ≡ averages a (sum_window a minimum maximum t count from)
  unfolding sum_window
  sum_window-with_two two minimum maximum count s t [] e f = rw (e, f) refl
  sum_window-with_two two minimum maximum count s t (cur ∷ from) e f =
      elim (Bool-cases (ltb maximum cur.time)) [
        | inl late ↦ rw late (sum_window-with_two two minimum maximum count s t from e f)
        | inr fits ↦ elim (Bool-cases (ltb cur.time minimum)) [
          | inl early ↦ rw (fits, early, e, f) refl
          | inr inside ↦
              let one : a.add s.one cur.values.one ≡ a.add t.one cur.values.one = rw e refl in
              let three : a.add s.three cur.values.three ≡ a.add t.three cur.values.three =
                rw f refl in
              rw (fits, inside)
                (sum_window-with_two two minimum maximum (count + 1) _ _ from one three)
        ]
      ]

  averages_same : (sum : Load D × ℕ) → (averages a sum).0.two ≡ (averages a sum).0.three
  averages_same (sum, count) = elim (Bool-cases (count == 0)) [
    | inl e ↦ rw e refl
    | inr e ↦ rw e refl
  ]

  -- In a sample of the history the five-minute load is always the fifteen-minute load, and the
  -- five-minute loads that were collected have no influence on any part of it.
  pub history_item-with_two :
      (i : SampleIndex) (two : Sample (Load D) → D) (from : List (Sample (Load D)))
      → ((history_item a i from).0.two ≡ (history_item a i from).0.three)
        × (history_item a i (map (with_two two) from) ≡ history_item a i from)
  unfolding history_item
  history_item-with_two i two from = (
    averages_same (
        sum_window a (i.time - i.interval)
          (if i.history_index == 0 then i.time + 990_000 else i.time)
          (record { one = a.nought; two = a.nought; three = a.nought }) 0 from),
    sum_window-with_two two _ _ 0 _ _ from refl refl,
  )
