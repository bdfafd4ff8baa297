-- ===== src/Tests/Passes.antt =====
-- The collectors together, and their history, at concrete inputs.
use istatserverlinux.Prelude.{
  ℕ, ◌+◌, ◌/◌, ◌≤◌, true, false, List, [], ◌∷◌, none, some, if◌then◌else◌, ◌≡◌, refl, arith,
}
use istatserverlinux.Prelude.Int.{pos}
use istatserverlinux.Prelude.Outcome.{done}
use istatserverlinux.Text.{codes, is_prefix}
use istatserverlinux.Text.Explode.{explode}
use istatserverlinux.Stats.{NetworkInfo, NetData, Sample}
use istatserverlinux.Stats.Items.Keys.{AreKeyed}
use istatserverlinux.Stats.Histories.{Interval, update_interval}
use istatserverlinux.Stats.Histories.Tracks.{AreUpdated, update_interval-AreUpdated}
use istatserverlinux.Stats.History.{Track}
use istatserverlinux.Stats.Network.{device_of, history_item_network}
use istatserverlinux.Stats.Cpu.{no_ticks}
use istatserverlinux.Stats.Sensors.{Sensors, sensor_key}
use istatserverlinux.Stats.Sensors.Files.{read_sysfs_string}
use istatserverlinux.Stats.Sensors.Cpufreq.{parse_cpus}
use istatserverlinux.Stats.Sensors.Update.{Machine, Sources, init_sensors}
use istatserverlinux.Stats.Sensors.After.Pass.{update_all, init_sensors-AreKeyed}
use istatserverlinux.Stats.Pass.{Collectors, Tables, Inputs}
use istatserverlinux.Stats.Pass.Once.{IsReady}
use istatserverlinux.Stats.Pass.Numbers.{passes, passes_lem}
use istatserverlinux.Tests.Counters.{whole, ten_seconds, eth0, network}
use istatserverlinux.Tests.Items.{disks, mounts, a_system, one_process, no_entry}

-- Two samples of the short interval to catch up with.
abbrev interval : Interval NetworkInfo NetData
interval = record {
  index = record ten_seconds { history_index = 0 };
  items = eth0 ∷ [];
  queue = [];
}

abbrev with_samples : List (List (Sample NetData)) → NetworkInfo → NetworkInfo
with_samples samples item = record item { samples = samples }

update_interval-AreUpdated_example :
    (t : Interval NetworkInfo NetData) × (update_interval
        (λ item. item.samples)
        with_samples
        device_of
        (history_item_network whole)
        6_000_001
        1
        22_000_000
        interval
      ≡ done t)
    × (22_000_000 ≤ t.index.next_time)
    × AreUpdated
        (λ item. item.samples)
        with_samples
        device_of
        (history_item_network whole)
        (λ samples item. refl)
        6_000_001
        1
        22_000_000
        interval.index
        t.index
        interval.items
        t.items
update_interval-AreUpdated_example =
    update_interval-AreUpdated (λ item. item.samples) with_samples device_of
      (history_item_network whole) (λ samples item. refl) 6_000_001 1 22_000_000 interval
      (omega arith) (omega arith, tt) (omega arith) (omega arith)

-- A machine with two thermal zones, which the text "45" names and measures.
abbrev machine : Machine
machine = record {
  file = λ path. if is_prefix (codes "/sys/class/thermal/") path then some (codes "45") else none;
  dir = λ path. some (codes "thermal_zone0" ∷ codes "thermal_zone1" ∷ []);
  exists = λ path. false;
  is_dir = λ path. false;
  scan_double = λ text. none;
  qnap = none;
  now = pos 0;
}

abbrev tables : Tables
tables = record {
  network_rows = λ key x. [];
  activity_rows = λ key x. [];
  disk_rows = λ key x. [];
  sensor_tables = record { limits = λ key. none; rows = λ key x. [] };
}

abbrev no_sensors : Sensors
no_sensors = record { ready = false; index = ten_seconds; history_enabled = false; items = [] }

init_sensors-AreKeyed_example :
    (t : Sources) × (init_sensors machine whole tables.sensor_tables 1 no_sensors ≡ done t)
    × AreKeyed sensor_key
        (update_all whole tables.sensor_tables (machine ∷ []) t).gpus.sensors.items
unfolding parse_cpus read_sysfs_string is_prefix
init_sensors-AreKeyed_example =
    init_sensors-AreKeyed machine whole tables.sensor_tables 1 (machine ∷ []) no_sensors
      (λ p. ([], refl)) refl

abbrev track : {V : Type 0} → Track V
track = record { index = ten_seconds; samples = []; queue = [] }

abbrev collectors : Collectors
collectors = record {
  sample_id = 4;
  cpu = record { last_ticks = no_ticks; ticks = pos 0; has_io_wait = true; track = track };
  load = track;
  memory = track;
  network = network;
  activity = record {
    ready = true;
    index = ten_seconds;
    session = 1;
    history_enabled = false;
    items = [];
  };
  processes = one_process;
  battery = record { index = ten_seconds; items = [] };
  disks = disks;
  sensors = record { gpus = record { sensors = no_sensors; gpus = [] }; rapl = [] };
}

abbrev inputs : Inputs
inputs = record {
  stat = some (codes "cpu  1 2 3 4 5\n");
  load = some (record { one = pos 1; two = pos 2; three = pos 3 });
  meminfo = some (codes "MemTotal: 8 kB\n");
  vmstat = none;
  active_infs = [];
  addresses = λ items. items;
  interfaces = [];
  disk_rows = [];
  entries = no_entry ∷ [];
  power = λ path. none;
  links = [];
  mounts = mounts;
  machine = machine;
}

abbrev three_runs : List (Inputs × ℕ)
three_runs = (inputs, 16_000_000) ∷ (inputs, 17_000_000) ∷ (inputs, 18_000_000) ∷ []

collectors-IsReady : IsReady collectors
unfolding explode
collectors-IsReady = record {
  network = refl;
  activity = refl;
  disks = refl;
  labels = (omega arith, tt);
}

-- All begin at the number 4; the pass with the number 6 is the third one.
passes_lem_example :
    (t : Collectors) × (passes whole a_system tables three_runs collectors ≡ done t)
    × (t.sample_id ≡ 7)
    × (t.cpu.track.index.sample_id ≡ 7)
    × (t.load.index.sample_id ≡ 7)
    × (t.memory.index.sample_id ≡ 7)
    × (t.network.index.sample_id ≡ 7)
    × (t.activity.index.sample_id ≡ 7)
    × (t.battery.index.sample_id + 1 ≡ 4 + t.sample_id / 3)
    × (t.disks.index.sample_id + 1 ≡ 4 + t.sample_id / 3)
    × (t.sensors.gpus.sensors.index.sample_id + 1 ≡ 7 + t.sample_id / 3)
passes_lem_example = passes_lem whole a_system tables three_runs collectors collectors-IsReady
