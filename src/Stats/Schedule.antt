-- ===== src/Stats/Schedule.antt =====
-- The schedule of the samples of src/stats/StatBase.cpp: eight intervals, each with the number and
-- the time of its last sample. A time is in microseconds.
pub mod Gaps
use istatserverlinux.Prelude.{
  ℕ, zero, suc, ◌+◌, ◌-◌, ◌*◌, ◌/◌, Bool, true, false, List, [], ◌∷◌, ltb, ◌==◌, if◌then◌else◌,
  get_or,
}
use istatserverlinux.Prelude.Outcome.{Outcome, done, no_fuel}

pub record SampleIndex : Type 0 where
  pub sample_id : ℕ
  pub time : ℕ
  pub next_time : ℕ
  pub interval : ℕ
  pub history_index : ℕ

abbrev pub second : ℕ
second = 1_000_000

abbrev pub storage_indexes : List ℕ
storage_indexes = 0 ∷ 0 ∷ 1 ∷ 1 ∷ 2 ∷ 2 ∷ 2 ∷ 2 ∷ 0 ∷ []

abbrev pub intervals : List ℕ
intervals = 1 ∷ 6 ∷ 144 ∷ 1008 ∷ 4320 ∷ 12960 ∷ 25920 ∷ 52560 ∷ 300 ∷ []

-- initShared sets sampleIndex[x] for each x below 8.
unfoldable pub init_shared : ℕ → SampleIndex
init_shared x = record {
  sample_id = 1;
  time = 0;
  next_time = 0;
  interval = get_or intervals x 0 * second;
  history_index = get_or storage_indexes x 0;
}

-- tickSample, tick and prepareUpdate, on sampleIndex[0].
abbrev pub tick_sample : SampleIndex → SampleIndex
tick_sample i = record i { sample_id = i.sample_id + 1 }

abbrev pub tick : SampleIndex → SampleIndex
tick i = record i { time = i.next_time }

abbrev pub prepare_update : SampleIndex → SampleIndex
prepare_update i = record i { time = i.next_time; sample_id = i.sample_id + 1 }

-- ceil(now), in whole seconds
abbrev pub ceil : ℕ → ℕ
ceil now = (now + (second - 1)) / second * second

-- while (nextTime < now)
unfoldable pub skip_gaps : ℕ → ℕ → SampleIndex → Outcome SampleIndex
skip_gaps zero now i = no_fuel
skip_gaps (suc fuel) now i =
    let rest =
      skip_gaps fuel now
        (record i { next_time = i.next_time + i.interval; sample_id = i.sample_id + 1 }) in
    if ltb i.next_time now then rest else done i

-- An interval that has no sample yet begins at the next whole second; InsertInitialSample only
-- writes to the database.
unfoldable pub fill_gaps_at_index : ℕ → ℕ → SampleIndex → Outcome SampleIndex
unfolding skip_gaps
fill_gaps_at_index fuel now i =
    if i.next_time == 0
    then done (record i { next_time = ceil now + i.interval; time = ceil now })
    else skip_gaps fuel now i
