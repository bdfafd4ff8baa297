-- ===== src/Stats/Activity.antt =====
-- src/stats/StatsActivity.cpp: the counters of the disks' reads and writes.
use istatserverlinux.Prelude.{
  ℕ, ◌+◌, ◌*◌, ◌%◌, ◌^◌, Bool, true, false, ◌||◌, List, [], ◌∷◌, ◌==◌, if◌then◌else◌, length,
}
use istatserverlinux.Prelude.Int.{pos}
use istatserverlinux.Text.{Bytes, codes, str_eq}
use istatserverlinux.Stats.{Floats, Sample, ActivityData, ActivityInfo}
use istatserverlinux.Stats.Schedule.{SampleIndex, prepare_update}
use istatserverlinux.Stats.History.{push_sample}
use istatserverlinux.Prelude.Outcome.{Outcome}
use istatserverlinux.Stats.Histories.{Histories, update_histories}
use istatserverlinux.Stats.Window.{fold_interval}
use istatserverlinux.Stats.Items.{
  has_key, change_first, change_all, stored_samples, change_at, since,
}

pub record Activity : Type 0 where
  pub ready : Bool
  pub index : SampleIndex
  pub session : ℕ
  pub history_enabled : Bool
  pub items : List ActivityInfo

abbrev pub activity_device : ActivityInfo → Bytes
activity_device item = item.device

-- The four counters of a disk.
pub record Counters : Type 0 where
  pub read : ℕ
  pub write : ℕ
  pub reads : ℕ
  pub writes : ℕ

-- One line of /proc/diskstats.
pub record DiskRow : Type 0 where
  pub major : ℕ
  pub dev : Bytes
  pub sectors_read : ℕ
  pub sectors_written : ℕ
  pub reads : ℕ
  pub writes : ℕ

module _ (rows : Bytes → ℕ → List (Sample ActivityData)) where
  unfoldable pub create_disk : Bytes → Activity → Activity
  unfolding has_key
  create_disk key s = if has_key activity_device s.items key then s else record s {
    session = s.session + 1;
    items =
        record {
          active = false;
          device = key;
          display_name = key;
          mounts = [];
          last_r = 0;
          last_w = 0;
          last_riops = 0;
          last_wiops = 0;
          samples = stored_samples s.history_enabled (rows key);
        }
        ∷ s.items;
  }

  -- A name that comes with the counters takes the place of the device's.
  abbrev pub activate_disk : Bytes → ActivityInfo → ActivityInfo
  activate_disk display_name item = record item {
    active = true;
    display_name = if length display_name == 0 then item.display_name else display_name;
  }

  module _ (f : Floats) where
    abbrev pub count_disk : SampleIndex → Counters → Bytes → ActivityInfo → ActivityInfo
    count_disk index c display_name old =
        let item = activate_disk display_name old in
        record item {
          last_r = c.read;
          last_w = c.write;
          last_riops = c.reads;
          last_wiops = c.writes;
          samples =
              change_at 0
                (push_sample (record {
                  sample_id = index.sample_id;
                  time = index.time;
                  values = record {
                    r = f.of_ull (since item.last_r c.read);
                    w = f.of_ull (since item.last_w c.write);
                    r_iops = f.of_ull (since item.last_riops c.reads);
                    w_iops = f.of_ull (since item.last_wiops c.writes);
                  };
                }))
                item.samples;
        }

    -- Before the first update is over the loop goes on behind a match.
    unfoldable pub process_disk : Bytes → Counters → Bytes → Activity → Activity
    unfolding create_disk change_first change_all str_eq
    process_disk key c display_name s =
        if str_eq key (codes "pass") || str_eq key (codes "cd")
        then s
        else (let t = create_disk key s in
            record t {
              items =
                  if t.ready
                  then change_first activity_device (count_disk t.index c display_name) t.items key
                  else change_all activity_device (activate_disk display_name) t.items key;
            })

    abbrev pub is_left_out : ℕ → Bool
    is_left_out major =
        major == 1 || major == 58 || major == 43 || major == 7 || major == 253 || major == 11

    -- A sector is 512 bytes.
    abbrev pub counters_of : DiskRow → Counters
    counters_of row = record {
      read = (row.sectors_read * 512) % 2 ^ 64;
      write = (row.sectors_written * 512) % 2 ^ 64;
      reads = row.reads;
      writes = row.writes;
    }

    abbrev pub update_disk_row : DiskRow → Activity → Activity
    update_disk_row row s =
        if is_left_out row.major then s else process_disk row.dev (counters_of row) [] s

    -- update, on the lines that fscanf reads
    unfoldable pub update_disks : List DiskRow → Activity → Activity
    unfolding process_disk
    update_disks [] s = s
    update_disks (row ∷ rest) s = update_disks rest (update_disk_row row s)

abbrev pub passivate_disks : List ActivityInfo → List ActivityInfo
passivate_disks [] = []
passivate_disks (item ∷ items) = record item { active = false } ∷ passivate_disks items

unfoldable pub prepare_activity : Activity → Activity
prepare_activity s =
    if s.ready
    then record s { index = prepare_update s.index; items = passivate_disks s.items }
    else s

module _ (f : Floats) where
  abbrev pub add_activity : ActivityData → ActivityData → ActivityData
  add_activity sums v = record {
    r = f.add sums.r v.r;
    w = f.add sums.w v.w;
    r_iops = f.add sums.r_iops v.r_iops;
    w_iops = f.add sums.w_iops v.w_iops;
  }

  unfoldable pub history_item_activity :
      SampleIndex → List (Sample ActivityData) → ActivityData × Bool
  unfolding fold_interval
  history_item_activity index from =
      let (sums, count) =
        fold_interval add_activity index
          (record { r = pos 0; w = pos 0; r_iops = pos 0; w_iops = pos 0 }) from in
      let n = f.of_ull count in
      if count == 0 then (sums, true) else (
        record {
          r = f.div sums.r n;
          w = f.div sums.w n;
          r_iops = f.div sums.r_iops n;
          w_iops = f.div sums.w_iops n;
        },
        false,
      )

-- updateHistory, from sampleIndex[0]; the clock is read anew for each interval.
unfoldable pub update_activity_history :
    Floats
    → ℕ
    → (ℕ → ℕ)
    → SampleIndex
    → Histories ActivityInfo ActivityData
    → Outcome (Histories ActivityInfo ActivityData)
unfolding update_histories history_item_activity
update_activity_history f =
    update_histories (λ item. item.samples) (λ samples item. record item { samples = samples })
      activity_device (history_item_activity f)
