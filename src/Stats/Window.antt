-- ===== src/Stats/Window.antt =====
-- The loop that each `historyItemAtIndex` of src/stats runs over the samples of the shorter interval,
-- newest first.
pub mod Inside
use istatserverlinux.Prelude.{ℕ, ◌+◌, ◌-◌, Bool, List, [], ◌∷◌, ltb, ◌==◌, if◌then◌else◌}
use istatserverlinux.Stats.{Sample}
use istatserverlinux.Stats.Schedule.{SampleIndex}

module _ {V S : Type 0} (step : S → V → S) where
  -- `continue` above the window, `break` below it; the number of samples comes with the sums.
  unfoldable pub fold_window : ℕ → ℕ → S → ℕ → List (Sample V) → S × ℕ
  fold_window minimum maximum sums count [] = (sums, count)
  fold_window minimum maximum sums count (cur ∷ rest) =
      let skip = fold_window minimum maximum sums count rest in
      let on = fold_window minimum maximum (step sums cur.values) (count + 1) rest in
      if ltb maximum cur.time then skip else if ltb cur.time minimum then (sums, count) else on

  -- minimumTime and maximumTime: the window of the first interval goes on for 0.99 seconds.
  unfoldable pub fold_interval : SampleIndex → S → List (Sample V) → S × ℕ
  unfolding fold_window
  fold_interval i sums from =
      fold_window (i.time - i.interval) (if i.history_index == 0 then i.time + 990_000 else i.time)
        sums 0 from
