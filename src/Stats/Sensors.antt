-- ===== src/Stats/Sensors.antt =====
-- src/stats/StatsSensors.cpp: the sensors, their samples and their limits, with the sources of Linux
-- in the modules below. The rows of the database are a parameter.
pub mod Limits
pub mod After
pub mod Files
pub mod Thermal
pub mod Cpufreq
pub mod Rapl
pub mod Gpu
pub mod Update
use istatserverlinux.Prelude.{
  ℕ, zero, suc, ◌+◌, ◌-◌, Bool, true, false, not, ◌&&◌, ◌||◌, List, [], ◌∷◌, Option, none, some,
  ltb, ◌==◌, if◌then◌else◌,
}
use istatserverlinux.Prelude.Int.{ℤ, pos, negsuc, ltb_ℤ, eqb_ℤ}
use istatserverlinux.Text.{Bytes, codes, str_eq}
use istatserverlinux.Stats.{Floats, Sample, SensorInfo}
use istatserverlinux.Stats.Schedule.{SampleIndex}
use istatserverlinux.Stats.History.{push_sample}
use istatserverlinux.Prelude.Outcome.{Outcome}
use istatserverlinux.Stats.Histories.{Histories, update_histories}
use istatserverlinux.Stats.Window.{fold_interval}
use istatserverlinux.Stats.Items.{has_key, change_all, stored_samples, change_at}

-- `ready` is 1 once the first update is over; `index` is sampleIndex[0].
pub record Sensors : Type 0 where
  pub ready : Bool
  pub index : SampleIndex
  pub history_enabled : Bool
  pub items : List SensorInfo

-- The last row of sensor_limits for a key, and the rows of the seven tables.
pub record SensorTables : Type 0 where
  pub limits : Bytes → Option (ℤ × ℤ)
  pub rows : Bytes → ℕ → List (Sample ℤ)

abbrev pub sensor_key : SensorInfo → Bytes
sensor_key item = item.key

abbrev pub minus_one : ℤ
minus_one = negsuc 999_999

abbrev pub low_high : Bool → Option (ℤ × ℤ) → ℤ × ℤ
low_high true (some limits) = limits
low_high _ _ = (minus_one, pos 0)

-- The kind, the method and the label are for the caller to set.
abbrev pub new_sensor : SensorTables → Sensors → Bytes → SensorInfo
new_sensor db s key = record {
  key = key;
  label = [];
  kind = pos 0;
  method = 0;
  recorded_value_changed = false;
  lowest_value = (low_high s.history_enabled (db.limits key)).0;
  highest_value = (low_high s.history_enabled (db.limits key)).1;
  samples = stored_samples s.history_enabled (db.rows key);
}

-- The flag says whether the sensor is new.
unfoldable pub create_sensor : SensorTables → Bytes → Sensors → Sensors × Bool
unfolding has_key
create_sensor db key s =
    if has_key sensor_key s.items key
    then (s, false)
    else (record s { items = new_sensor db s key ∷ s.items }, true)

abbrev pub set_meta : ℕ → ℕ → Bytes → SensorInfo → SensorInfo
set_meta method kind label item = record item { method = method; kind = pos kind; label = label }

-- if (createSensor(key) == 1) for (auto &s : _items) if (s.key == key) …
unfoldable pub add_sensor : SensorTables → Bytes → ℕ → ℕ → Bytes → Sensors → Sensors
unfolding create_sensor change_all
add_sensor db key method kind label s =
    let (t, created) = create_sensor db key s in
    if created
    then record t { items = change_all sensor_key (set_meta method kind label) t.items key }
    else t

-- The limits take the value in: -1 stands for no lowest value yet.
abbrev pub is_highest : ℤ → SensorInfo → Bool
is_highest value item = ltb_ℤ item.highest_value value

abbrev pub is_lowest : ℤ → SensorInfo → Bool
is_lowest value item = ltb_ℤ value item.lowest_value || eqb_ℤ item.lowest_value minus_one

abbrev pub record_value : SampleIndex → ℤ → SensorInfo → SensorInfo
record_value index value item = record item {
  samples =
      change_at 0
        (push_sample (record { sample_id = index.sample_id; time = index.time; values = value }))
        item.samples;
  highest_value = if is_highest value item then value else item.highest_value;
  lowest_value = if is_lowest value item then value else item.lowest_value;
  recorded_value_changed = is_highest value item || is_lowest value item;
}

unfoldable pub process_sensor : Bytes → ℤ → Sensors → Sensors
unfolding change_all
process_sensor key value s =
    if s.ready
    then record s { items = change_all sensor_key (record_value s.index value) s.items key }
    else s

module _ (f : Floats) where
  -- historyItemAtIndex: a sum that is not positive is not divided.
  unfoldable pub history_item_sensor : SampleIndex → List (Sample ℤ) → ℤ × Bool
  unfolding fold_interval
  history_item_sensor index from =
      let (value, count) = fold_interval f.add index (pos 0) from in
      (
        if ltb 0 count && ltb_ℤ (pos 0) value then f.div value (f.of_ull count) else value,
        count == 0,
      )

-- Every item takes the temperature's label.
unfoldable pub relabel : List SensorInfo → List SensorInfo
relabel [] = []
relabel (item ∷ items) = set_meta 3 0 (codes "Temperature") item ∷ relabel items

-- init_qnap, on what fscanf reads of the file.
unfoldable pub init_qnap : SensorTables → Option ℤ → Sensors → Sensors
unfolding create_sensor relabel
init_qnap db none s = s
init_qnap db (some temp) s =
    let t = (create_sensor db (codes "qnap") s).0 in record t { items = relabel t.items }

unfoldable pub update_qnap : Floats → Option ℤ → Sensors → Sensors
unfolding process_sensor
update_qnap f none s = s
update_qnap f (some temp) s = process_sensor (codes "qnap") (f.of_ll temp) s

-- updateHistory, from sampleIndex[0]; the clock is read anew for each interval.
unfoldable pub update_sensor_history :
    Floats → ℕ → (ℕ → ℕ) → SampleIndex → Histories SensorInfo ℤ → Outcome (Histories SensorInfo ℤ)
unfolding update_histories history_item_sensor
update_sensor_history f =
    update_histories (λ item. item.samples) (λ samples item. record item { samples = samples })
      sensor_key (history_item_sensor f)
