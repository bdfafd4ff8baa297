-- ===== src/Stats/Pass.antt =====
-- One pass of `update_system_stats` of src/Stats.cpp over the collectors, and `updateNextTimes`.
pub mod Kept
pub mod Once
pub mod Numbers
use istatserverlinux.Prelude.{
  ℕ, ◌+◌, ◌%◌, ◌==◌, Bool, true, false, List, Option, none, some, if◌then◌else◌,
}
use istatserverlinux.Prelude.Int.{ℤ}
use istatserverlinux.Prelude.Outcome.{Outcome, done, ◌>>=◌}
use istatserverlinux.Text.{Bytes}
use istatserverlinux.Stats.{Floats, Sample, NetData, NetworkInfo, ActivityData, DiskData}
use istatserverlinux.Stats.Schedule.{SampleIndex, prepare_update, tick}
use istatserverlinux.Stats.History.{Track, Load, add_sample}
use istatserverlinux.Stats.Cpu.{Cpu, update_procfs}
use istatserverlinux.Stats.Memory.{update_memory}
use istatserverlinux.Stats.Network.{Network, Row, prepare_network, update_interfaces}
use istatserverlinux.Stats.Activity.{Activity, DiskRow, prepare_activity, update_disks}
use istatserverlinux.Stats.Processes.{
  Processes, ProcEntry, System, prepare_processes, update_processes, finish_update,
}
use istatserverlinux.Stats.Battery.{Battery, prepare_battery, update_batteries}
use istatserverlinux.Stats.Disks.{Disks, Mount, prepare_disks, update_mounts}
use istatserverlinux.Stats.Sensors.{Sensors, SensorTables}
use istatserverlinux.Stats.Sensors.Update.{Machine, Sources, update_sensors}

-- The members of Stats; the sensors stand with their sources.
pub record Collectors : Type 0 where
  pub sample_id : ℕ
  pub cpu : Cpu
  pub load : Track (Load ℤ)
  pub memory : Track (ℕ → ℤ)
  pub network : Network
  pub activity : Activity
  pub processes : Processes
  pub battery : Battery
  pub disks : Disks
  pub sensors : Sources

-- The rows of the database.
pub record Tables : Type 0 where
  pub network_rows : Bytes → ℕ → List (Sample NetData)
  pub activity_rows : Bytes → ℕ → List (Sample ActivityData)
  pub disk_rows : Bytes → ℕ → List (Sample DiskData)
  pub sensor_tables : SensorTables

-- What the system gives at one pass.
pub record Inputs : Type 0 where
  pub stat : Option Bytes
  pub load : Option (Load ℤ)
  pub meminfo : Option Bytes
  pub vmstat : Option Bytes
  pub active_infs : List Bytes
  pub addresses : List NetworkInfo → List NetworkInfo
  pub interfaces : List Row
  pub disk_rows : List DiskRow
  pub entries : List ProcEntry
  pub power : Bytes → Option Bytes
  pub links : List (Bytes × Bytes)
  pub mounts : List Mount
  pub machine : Machine

-- `prepareUpdate` and `tick` of StatBase.cpp, where a collector has no other.
abbrev pub prepare_track : {V : Type 0} → Track V → Track V
prepare_track t = record t { index = prepare_update t.index }

abbrev pub with_index : (SampleIndex → SampleIndex) → Sources → Sources
with_index change s = record s {
  gpus = record (s.gpus) {
    sensors = record (s.gpus.sensors) { index = change s.gpus.sensors.index };
  };
}

abbrev pub update_load : Option (Load ℤ) → Track (Load ℤ) → Track (Load ℤ)
update_load none t = t
update_load (some load) t = add_sample load t

module _ (f : Floats) (sys : System) (db : Tables) where
  -- The part before the test for every third sample; `n` is the number of the pass.
  unfoldable pub update_often : Inputs → Collectors → Collectors
  unfolding prepare_network prepare_activity prepare_processes update_procfs update_memory
      update_interfaces update_disks update_processes finish_update
  update_often i s = record {
    sample_id = s.sample_id + 1;
    cpu = update_procfs f i.stat (record (s.cpu) { track = prepare_track s.cpu.track });
    load = update_load i.load (prepare_track s.load);
    memory = update_memory f i.meminfo i.vmstat (prepare_track s.memory);
    network =
        update_interfaces i.addresses db.network_rows f i.active_infs i.interfaces
          (prepare_network s.network);
    activity = update_disks db.activity_rows f i.disk_rows (prepare_activity s.activity);
    processes = finish_update (update_processes f sys i.entries (prepare_processes s.processes));
    battery = s.battery;
    disks = s.disks;
    sensors = with_index prepare_update s.sensors;
  }

  -- Every third sample; the sensors have been prepared before.
  unfoldable pub update_seldom : Inputs → Collectors → Outcome Collectors
  unfolding prepare_battery prepare_disks update_batteries update_mounts update_sensors
  update_seldom i s =
      let battery = prepare_battery s.battery in
      update_mounts i.links db.disk_rows f i.mounts (prepare_disks s.disks) >>= λ disks.
      done (record s {
        battery = record battery { items = update_batteries f i.power battery.items };
        disks = disks;
        sensors = update_sensors i.machine f db.sensor_tables (with_index prepare_update s.sensors);
      })

  abbrev pub tick_seldom : Collectors → Collectors
  tick_seldom s = record s {
    sensors = with_index tick s.sensors;
    disks = record (s.disks) { index = tick s.disks.index };
    battery = record (s.battery) { index = tick s.battery.index };
  }

  -- update_system_stats, less the history.
  unfoldable pub update_system_stats : Inputs → Collectors → Outcome Collectors
  unfolding update_often update_seldom
  update_system_stats i old =
      let s = update_often i old in
      if s.sample_id % 3 == 0 then update_seldom i s else done (tick_seldom s)

-- updateNextTimes, on the index of each collector.
abbrev next_at : ℕ → SampleIndex → SampleIndex
next_at t i = record i { next_time = t }

abbrev next_of : {V : Type 0} → ℕ → Track V → Track V
next_of t track = record track { index = next_at t track.index }

unfoldable pub update_next_times : ℕ → Collectors → Collectors
update_next_times t s = record s {
  cpu = record (s.cpu) { track = next_of t s.cpu.track };
  load = next_of t s.load;
  memory = next_of t s.memory;
  network = record (s.network) { index = next_at t s.network.index };
  activity = record (s.activity) { index = next_at t s.activity.index };
  battery = record (s.battery) { index = next_at t s.battery.index };
  disks = record (s.disks) { index = next_at t s.disks.index };
  sensors = with_index (next_at t) s.sensors;
}
