-- ===== src/Stats/Histories.antt =====
-- `updateHistory` of the collectors with items, which src/stats/StatsNetwork.cpp, StatsActivity.cpp,
-- StatsDisks.cpp and StatsSensors.cpp write out alike.
pub mod Tracks
use istatserverlinux.Prelude.{
  ℕ, zero, suc, ◌+◌, ◌*◌, Bool, true, false, List, [], ◌∷◌, ◌++◌, ltb, leb, if◌then◌else◌, get_or,
}
use istatserverlinux.Prelude.Outcome.{Outcome, done, no_fuel, ◌>>=◌}
use istatserverlinux.Text.{Bytes}
use istatserverlinux.Stats.{Sample}
use istatserverlinux.Stats.Schedule.{SampleIndex}
use istatserverlinux.Stats.History.{advance, push_sample, history_size}
use istatserverlinux.Stats.Items.{change_at}

-- An insertion that waits in databaseQueue, with the number x of its table: the sample of an item with
-- its key, or the number and the time of a sample, for the table of the sample numbers.
pub data HistoryRow (V : Type 0) : Type 0 where
  item_row : ℕ → Bytes → Sample V → HistoryRow V
  id_row : ℕ → ℕ → ℕ → HistoryRow V

-- sampleIndex[x] of one interval, with the items and the queue.
pub record Interval (A V : Type 0) : Type 0 where
  pub index : SampleIndex
  pub items : List A
  pub queue : List (HistoryRow V)

-- sampleIndex[1] to sampleIndex[7]
pub record Histories (A V : Type 0) : Type 0 where
  pub indexes : List SampleIndex
  pub items : List A
  pub queue : List (HistoryRow V)

-- How an item holds its deques and what the rows call it; `item` is historyItemAtIndex on the deque
-- that it reads, with `empty`.
module _ {A V : Type 0} (samples_of : A → List (List (Sample V)))
    (with_samples : List (List (Sample V)) → A → A) (key_of : A → Bytes)
    (item : SampleIndex → List (Sample V) → V × Bool) where
  abbrev pub deque : ℕ → A → List (Sample V)
  deque x a = get_or (samples_of a) x []

  abbrev pub history_sample : SampleIndex → A → Sample V
  history_sample i a = record {
    sample_id = i.sample_id;
    time = i.time;
    values = (item i (deque i.history_index a)).0;
  }

  -- samples[x].push_front(sample), for every item
  unfoldable pub sample_items : ℕ → SampleIndex → List A → List A
  sample_items x i [] = []
  sample_items x i (a ∷ items) =
      with_samples (change_at x (push_sample (history_sample i a)) (samples_of a)) a
      ∷ sample_items x i items

  -- The rows of the samples that are not empty.
  unfoldable pub item_rows : ℕ → SampleIndex → List A → List (HistoryRow V)
  item_rows x i [] = []
  item_rows x i (a ∷ items) =
      let rows = item_rows x i items in
      if (item i (deque i.history_index a)).1
      then rows
      else item_row x (key_of a) (history_sample i a) ∷ rows

  abbrev pub put_samples : ℕ → SampleIndex → Interval A V → Interval A V
  put_samples x i s = record {
    index = i;
    items = sample_items x i s.items;
    queue = s.queue ++ (item_rows x i s.items ++ id_row x i.sample_id i.time ∷ []);
  }

  -- while(nextTime < now): a time that is too old for the history only counts.
  unfoldable pub update_interval : ℕ → ℕ → ℕ → Interval A V → Outcome (Interval A V)
  unfolding sample_items item_rows
  update_interval zero x now s = no_fuel
  update_interval (suc fuel) x now s =
      let i = advance s.index in
      let old = update_interval fuel x now (record s { index = i }) in
      let new = update_interval fuel x now (put_samples x i s) in
      if ltb s.index.next_time now
      then (if ltb (i.time + history_size * i.interval) now then old else new)
      else done s

  -- for (x = 1; x < 8; x++), from the interval number x on, with sampleIndex[0] as `first` and the time
  -- that the clock gives at x.
  unfoldable pub update_intervals :
      ℕ
      → (ℕ → ℕ)
      → SampleIndex
      → ℕ
      → List SampleIndex
      → List A
      → List (HistoryRow V)
      → Outcome (Histories A V)
  unfolding update_interval
  update_intervals fuel clock first x [] items queue =
      done (record { indexes = []; items = items; queue = queue })
  update_intervals fuel clock first x (i ∷ indexes) items queue = do
    let s : Interval A V = record { index = i; items = items; queue = queue }
    t ← (if leb i.next_time first.time then update_interval fuel x (clock x) s else done s)
    h ← update_intervals fuel clock first (x + 1) indexes t.items t.queue
    done (record h { indexes = t.index ∷ h.indexes })

  -- updateHistory
  unfoldable pub update_histories :
      ℕ → (ℕ → ℕ) → SampleIndex → Histories A V → Outcome (Histories A V)
  unfolding update_intervals
  update_histories fuel clock first h =
      update_intervals fuel clock first 1 h.indexes h.items h.queue
