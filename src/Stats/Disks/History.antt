-- ===== src/Stats/Disks/History.antt =====
-- The history items of src/stats/StatsDisks.cpp, and `updateHistory`.
use istatserverlinux.Prelude.{ℕ, Bool, true, false, List, ◌==◌, if◌then◌else◌}
use istatserverlinux.Prelude.Int.{ℤ, pos}
use istatserverlinux.Prelude.Outcome.{Outcome}
use istatserverlinux.Stats.{Floats, Sample, DiskData, DiskInfo}
use istatserverlinux.Stats.Schedule.{SampleIndex}
use istatserverlinux.Stats.Window.{fold_interval}
use istatserverlinux.Stats.Histories.{Histories, update_histories}

module _ (f : Floats) where
  abbrev pub add_sizes : DiskData → DiskData → DiskData
  add_sizes sums v = record sums { u = f.add sums.u v.u; f = f.add sums.f v.f; t = v.t }

  -- historyItemAtIndex leaves p unset, and takes the total of the oldest sample.
  unfoldable pub history_item_disk : ℤ → SampleIndex → List (Sample DiskData) → DiskData × Bool
  unfolding fold_interval
  history_item_disk p index from =
      let (sums, count) =
        fold_interval add_sizes index (record { f = pos 0; u = pos 0; t = pos 0; p = p }) from in
      if count == 0 then (sums, true) else (
        record sums { u = f.div sums.u (f.of_ull count); f = f.div sums.f (f.of_ull count) },
        false,
      )

-- updateHistory, from sampleIndex[0]; the clock is read anew for each interval.
unfoldable pub update_disk_history :
    Floats
    → ℤ
    → ℕ
    → (ℕ → ℕ)
    → SampleIndex
    → Histories DiskInfo DiskData
    → Outcome (Histories DiskInfo DiskData)
unfolding update_histories history_item_disk
update_disk_history f p =
    update_histories (λ item. item.samples) (λ samples item. record item { samples = samples })
      (λ item. item.uuid) (history_item_disk f p)
