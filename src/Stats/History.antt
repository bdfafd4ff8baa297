-- ===== src/Stats/History.antt =====
-- The samples of one collector over the eight intervals: `addSample` and `updateHistory`, which
-- src/stats/StatsLoad.cpp and src/stats/StatsCPU.cpp write out alike, and the load's
-- `historyItemAtIndex`.
pub mod Kept
pub mod FiveMinutes
use istatserverlinux.Prelude.{
  ℕ, zero, suc, ◌+◌, ◌-◌, ◌*◌, Bool, true, false, List, [], ◌∷◌, ◌++◌, ltb, leb, ◌==◌,
  if◌then◌else◌, length, take, get_or,
}
use istatserverlinux.Prelude.Outcome.{Outcome, done, no_fuel, ◌>>=◌}
use istatserverlinux.Stats.{Sample}
use istatserverlinux.Stats.Schedule.{SampleIndex}

-- sampleIndex[x], samples[x], and what of it waits in databaseQueue.
pub record Track (V : Type 0) : Type 0 where
  pub index : SampleIndex
  pub samples : List (Sample V)
  pub queue : List (Sample V)

abbrev pub history_size : ℕ
history_size = 600

-- The head of a round: the next number and time.
abbrev pub advance : SampleIndex → SampleIndex
advance i = record i {
  sample_id = i.sample_id + 1;
  time = i.next_time;
  next_time = i.next_time + i.interval;
}

module _ {V : Type 0} where
  -- push_front, and pop_back where there are more than HISTORY_SIZE
  unfoldable pub push_sample : Sample V → List (Sample V) → List (Sample V)
  push_sample sample samples =
      let pushed = sample ∷ samples in
      if ltb history_size (length pushed) then take (length pushed - 1) pushed else pushed

  -- addSample, on the track of index 0
  abbrev pub add_sample : V → Track V → Track V
  add_sample values t = record t {
    samples =
        push_sample (record { sample_id = t.index.sample_id; time = t.index.time; values = values })
          t.samples;
  }

  abbrev pub put_sample : Track V → SampleIndex → V × Bool → Track V
  put_sample t i item =
      let sample : Sample V = record { sample_id = i.sample_id; time = i.time; values = item.0 } in
      record {
        index = i;
        samples = push_sample sample t.samples;
        queue = if item.1 then t.queue else t.queue ++ sample ∷ [];
      }

  module _ (item : SampleIndex → List (Sample V) → V × Bool) where
    -- while(nextTime < now): a time that is too old for the history only counts. `from` is the
    -- shorter interval that the items are made of, and `item` historyItemAtIndex, with `empty`.
    unfoldable pub update_track : ℕ → ℕ → List (Sample V) → Track V → Outcome (Track V)
    update_track zero now from t = no_fuel
    update_track (suc fuel) now from t =
        let i = advance t.index in
        let old = update_track fuel now from (record t { index = i }) in
        let new = update_track fuel now from (put_sample t i (item i from)) in
        if ltb t.index.next_time now
        then (if ltb (i.time + history_size * i.interval) now then old else new)
        else done t

    no_track : Track V
    no_track = record {
      index = record { sample_id = 0; time = 0; next_time = 0; interval = 0; history_index = 0 };
      samples = [];
      queue = [];
    }

    -- for (x = 1; x < 8; x++), the tracks before x in `before`.
    unfoldable pub update_tracks :
        ℕ → ℕ → List (Track V) → List (Track V) → Outcome (List (Track V))
    unfolding update_track no_track
    update_tracks fuel now before [] = done before
    update_tracks fuel now before (t ∷ rest) = do
      let due = leb t.index.next_time (get_or before 0 no_track).index.time
      let from = (get_or before t.index.history_index no_track).samples
      u ← (if due then update_track fuel now from t else done t)
      update_tracks fuel now (before ++ u ∷ []) rest

    -- updateHistory, with the track of index 0 first.
    unfoldable pub update_history : ℕ → ℕ → Track V → List (Track V) → Outcome (List (Track V))
    unfolding update_tracks
    update_history fuel now first tracks = update_tracks fuel now (first ∷ []) tracks

-- The load averages, over the arithmetic of double, with the conversion to float as `narrow`.
pub record Load (D : Type 0) : Type 0 where
  pub one : D
  pub two : D
  pub three : D

pub record Arithmetic (D : Type 0) : Type 0 where
  pub nought : D
  pub add : D → D → D
  pub divide : D → ℕ → D
  pub narrow : D → D

module _ {D : Type 0} (a : Arithmetic D) where
  -- The sums and the number of samples in the window; `continue` above it, `break` below it.
  unfoldable pub sum_window : ℕ → ℕ → Load D → ℕ → List (Sample (Load D)) → Load D × ℕ
  sum_window minimum maximum sum count [] = (sum, count)
  sum_window minimum maximum sum count (cur ∷ rest) =
      let skip = sum_window minimum maximum sum count rest in
      let on =
        sum_window minimum maximum
          (record {
            one = a.add sum.one cur.values.one;
            two = a.add sum.two cur.values.two;
            three = a.add sum.three cur.values.three;
          })
          (count + 1) rest in
      if ltb maximum cur.time then skip else if ltb cur.time minimum then (sum, count) else on

  -- load15 is divided twice, and stands for load5 as well.
  abbrev pub averages : Load D × ℕ → Load D × Bool
  averages (sum, count) =
      let load15 = a.divide (a.divide sum.three count) count in
      if count == 0
      then (
        record { one = a.narrow sum.one; two = a.narrow sum.three; three = a.narrow sum.three },
        true,
      )
      else (
        record {
          one = a.narrow (a.divide sum.one count);
          two = a.narrow load15;
          three = a.narrow load15;
        },
        false,
      )

  -- historyItemAtIndex; the window of the first interval goes on for 0.99 seconds.
  unfoldable pub history_item : SampleIndex → List (Sample (Load D)) → Load D × Bool
  unfolding sum_window
  history_item i from =
      let maximum = if i.history_index == 0 then i.time + 990_000 else i.time in
      averages (
        sum_window (i.time - i.interval) maximum
          (record { one = a.nought; two = a.nought; three = a.nought }) 0 from)
