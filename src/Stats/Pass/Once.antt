-- ===== src/Stats/Pass/Once.antt =====
-- One pass of src/Stats.cpp: the indexes of the collectors behind it.
use istatserverlinux.Prelude.{
  ℕ, ◌+◌, ◌%◌, ◌==◌, Bool, true, Option, none, some, if◌then◌else◌, ◌≡◌, refl, ◌∙◌, Bool-cases, inl,
  inr,
}
use istatserverlinux.Prelude.Int.{ℤ}
use istatserverlinux.Prelude.Outcome.{done}
use istatserverlinux.Stats.{Floats}
use istatserverlinux.Stats.Schedule.{prepare_update, tick}
use istatserverlinux.Stats.History.{Track, Load}
use istatserverlinux.Stats.Processes.{System}
use istatserverlinux.Stats.Network.{Network, prepare_network}
use istatserverlinux.Stats.Activity.{Activity, prepare_activity}
use istatserverlinux.Stats.Disks.{Disks, prepare_disks}
use istatserverlinux.Stats.Disks.Mounted.{AreLabels, update_mounts-has_key}
use istatserverlinux.Stats.Battery.{prepare_battery, update_batteries}
use istatserverlinux.Stats.Sensors.Update.{update_sensors}
use istatserverlinux.Stats.Sensors.After.Pass.{update_sensors-IsAfter}
use istatserverlinux.Stats.Pass.{
  Collectors, Tables, Inputs, with_index, update_load, update_often, update_seldom, tick_seldom,
  update_system_stats,
}
use istatserverlinux.Stats.Pass.Kept.{
  update_procfs-index, update_memory-index, update_interfaces-Same, update_disks-Same,
  update_mounts-Same,
}

-- The first update is over, and each custom label of a disk has its two words.
pub record IsReady (s : Collectors) : Type 0 where
  pub network : s.network.ready ≡ true
  pub activity : s.activity.ready ≡ true
  pub disks : s.disks.ready ≡ true
  pub labels : AreLabels s.disks.custom_names

abbrev pub third : ℕ → Bool
third n = n % 3 == 0

-- The indexes behind one pass.
pub record IsPass (s t : Collectors) : Type 0 where
  pub number : t.sample_id ≡ s.sample_id + 1
  pub cpu : t.cpu.track.index ≡ prepare_update s.cpu.track.index
  pub load : t.load.index ≡ prepare_update s.load.index
  pub memory : t.memory.index ≡ prepare_update s.memory.index
  pub network : t.network.index ≡ prepare_update s.network.index
  pub activity : t.activity.index ≡ prepare_update s.activity.index
  pub battery :
      t.battery.index
      ≡ (if third (s.sample_id + 1) then prepare_update s.battery.index else tick s.battery.index)
  pub disks :
      t.disks.index
      ≡ (if third (s.sample_id + 1) then prepare_update s.disks.index else tick s.disks.index)
  pub sensors : t.sensors.gpus.sensors.index ≡ (
      if third (s.sample_id + 1)
      then prepare_update (prepare_update s.sensors.gpus.sensors.index)
      else tick (prepare_update s.sensors.gpus.sensors.index))

update_load-index :
    (load : Option (Load ℤ)) (t : Track (Load ℤ)) → (update_load load t).index ≡ t.index
update_load-index none t = refl
update_load-index (some load) t = refl

prepare_network-ready :
    (s : Network)
    → s.ready ≡ true
    → ((prepare_network s).index ≡ prepare_update s.index) × ((prepare_network s).ready ≡ true)
unfolding prepare_network
prepare_network-ready s h = rw h (refl, refl)

prepare_activity-ready :
    (s : Activity)
    → s.ready ≡ true
    → ((prepare_activity s).index ≡ prepare_update s.index) × ((prepare_activity s).ready ≡ true)
unfolding prepare_activity
prepare_activity-ready s h = rw h (refl, refl)

prepare_disks-ready :
    (s : Disks)
    → s.ready ≡ true
    → ((prepare_disks s).index ≡ prepare_update s.index)
      × ((prepare_disks s).ready ≡ true)
      × ((prepare_disks s).custom_names ≡ s.custom_names)
unfolding prepare_disks
prepare_disks-ready s h = rw h (refl, refl, refl)

module _ (f : Floats) (sys : System) (db : Tables) where
  -- The part of a pass that comes for every sample.
  often_lem :
      (i : Inputs) (s : Collectors)
      → IsReady s
      → let t = update_often f sys db i s in
        (t.cpu.track.index ≡ prepare_update s.cpu.track.index)
        × (t.load.index ≡ prepare_update s.load.index)
        × (t.memory.index ≡ prepare_update s.memory.index)
        × (t.network.index ≡ prepare_update s.network.index)
        × (t.network.ready ≡ true)
        × (t.activity.index ≡ prepare_update s.activity.index)
        × (t.activity.ready ≡ true)
  unfolding update_often
  often_lem i s r =
      let (net, net_ready) = prepare_network-ready s.network r.network in
      let (act, act_ready) = prepare_activity-ready s.activity r.activity in
      let (net_same, net_still) =
        update_interfaces-Same i.addresses db.network_rows f i.active_infs i.interfaces
          (prepare_network s.network) in
      let (act_same, act_still) =
        update_disks-Same db.activity_rows f i.disk_rows (prepare_activity s.activity) in
      (
        update_procfs-index f i.stat _,
        update_load-index i.load _,
        update_memory-index f i.meminfo i.vmstat _,
        net_same ∙ net,
        net_still ∙ net_ready,
        act_same ∙ act,
        act_still ∙ act_ready,
      )

  -- What every third pass makes of the others, given its disks.
  abbrev seldom : Inputs → Disks → Collectors → Collectors
  seldom i disks s = record s {
    battery = record (prepare_battery s.battery) {
      items = update_batteries f i.power (prepare_battery s.battery).items;
    };
    disks = disks;
    sensors = update_sensors i.machine f db.sensor_tables (with_index prepare_update s.sensors);
  }

  -- One pass comes to an end: a custom label of one word is all that could crash it.
  pub update_system_stats_lem :
      (i : Inputs) (s : Collectors)
      → IsReady s
      → (t : Collectors) × (update_system_stats f sys db i s ≡ done t) × IsReady t × IsPass s t
  unfolding update_system_stats update_often update_seldom prepare_battery
  update_system_stats_lem i s r =
      let (cpu, load, memory, network, net_ready, activity, act_ready) = often_lem i s r in
      let often = update_often f sys db i s in
      elim (Bool-cases (third (s.sample_id + 1))) [
        | inr e ↦ (
          tick_seldom f sys db often,
          rw e refl,
          record { network = net_ready; activity = act_ready; disks = r.disks; labels = r.labels },
          record {
            number = refl;
            cpu = cpu;
            load = load;
            memory = memory;
            network = network;
            activity = activity;
            battery = rw e refl;
            disks = rw e refl;
            sensors = rw e refl;
          },
        )
        | inl e ↦
            let (prepared, still, names) = prepare_disks-ready s.disks r.disks in
            let (disks, made, keys) =
              update_mounts-has_key i.links db.disk_rows f i.mounts (prepare_disks s.disks)
                (rw names r.labels) in
            let (same_index, same_ready, same_names) =
              update_mounts-Same i.links db.disk_rows f i.mounts (prepare_disks s.disks) disks
                made in
            let after =
              update_sensors-IsAfter i.machine f db.sensor_tables
                (with_index prepare_update often.sensors) in
            (
              seldom i disks often,
              rw (e, made) refl,
              record {
                network = net_ready;
                activity = act_ready;
                disks = same_ready ∙ still;
                labels = rw (same_names, names) r.labels;
              },
              record {
                number = refl;
                cpu = cpu;
                load = load;
                memory = memory;
                network = network;
                activity = activity;
                battery = rw e refl;
                disks = rw e (same_index ∙ prepared);
                sensors = rw e after.index;
              },
            )
      ]
