-- ===== src/Tests/Items.antt =====
-- The collectors that keep items, at concrete inputs.
use istatserverlinux.Prelude.{
  ℕ, ◌+◌, ◌%◌, ◌||◌, true, false, List, [], ◌∷◌, none, some, ◌≡◌, refl, arith, All,
}
use istatserverlinux.Prelude.Int.{pos, negsuc}
use istatserverlinux.Prelude.Outcome.{done}
use istatserverlinux.Text.{Bytes, codes, str_eq}
use istatserverlinux.Text.Explode.{explode}
use istatserverlinux.Text.Number.{show}
use istatserverlinux.Stats.{SensorInfo, ProcessInfo}
use istatserverlinux.Stats.Items.{has_key, find_key}
use istatserverlinux.Stats.Processes.{
  Processes, ProcEntry, System, has_pid, update_processes, prepare_processes, finish_update,
}
use istatserverlinux.Stats.Processes.Live.{AreSeparate, is_alive, finish_update-update_processes}
use istatserverlinux.Stats.Processes.Names.{process_name}
use istatserverlinux.Stats.Sensors.{Sensors, sensor_key, minus_one}
use istatserverlinux.Stats.Sensors.Files.{pretty_thermal_label, read_longlong}
use istatserverlinux.Stats.Sensors.Limits.{process_all, process_all-limits}
use istatserverlinux.Stats.Sensors.Cpufreq.{parse_cpus}
use istatserverlinux.Stats.Sensors.Cpufreq.Related.{parse_cpus-shows}
use istatserverlinux.Stats.Sensors.Rapl.Energy.{IsBelow, energies, sum, energies_lem}
use istatserverlinux.Stats.Disks.{Disks, Mount, disk_key, update_mounts}
use istatserverlinux.Stats.Disks.Mounted.{is_wanted, update_mounts-has_key}
use istatserverlinux.Tests.Counters.{whole, ten_seconds}

process_name_run :
    process_name
      (codes "Name:\tsystemd-resolve\nState:\tS\n")
      (some (codes "/lib/systemd/systemd-resolved"))
    ≡ codes "systemd-resolved"
unfolding process_name
process_name_run = refl

label_run :
    (pretty_thermal_label (codes "cpu12-thermal") ≡ codes "CPU 12")
    × (pretty_thermal_label (codes "mali") ≡ codes "GPU")
unfolding pretty_thermal_label
label_run = (refl, refl)

read_run : read_longlong (some (codes "-12 \n")) ≡ some (negsuc 11)
unfolding read_longlong
read_run = refl

parse_run : parse_cpus 9 (codes "0-2 5\n") [] ≡ done (pos 0 ∷ pos 1 ∷ pos 2 ∷ pos 5 ∷ [])
unfolding parse_cpus
parse_run = refl

parse_cpus-shows_example : parse_cpus 4 (codes "0 1 15") [] ≡ done (pos 0 ∷ pos 1 ∷ pos 15 ∷ [])
unfolding show
parse_cpus-shows_example =
    parse_cpus-shows (0 ∷ 1 ∷ 15 ∷ []) 4 (omega arith, (omega arith, (omega arith, tt)))
      (omega arith)

-- A counter that wraps at 100, between 60 and 40.
energies_lem_example :
    All (IsBelow 100) (energies 100 60 (90 ∷ 40 ∷ []))
    × ((60 + sum (energies 100 60 (90 ∷ 40 ∷ []))) % 100 ≡ 40)
energies_lem_example =
    energies_lem 100 60 (90 ∷ 40 ∷ []) (omega arith) (omega arith, (omega arith, tt))

abbrev temperature : SensorInfo
temperature = record {
  key = codes "t";
  label = [];
  kind = pos 0;
  method = 0;
  recorded_value_changed = false;
  lowest_value = minus_one;
  highest_value = pos 0;
  samples = [] ∷ [] ∷ [] ∷ [] ∷ [] ∷ [] ∷ [] ∷ [] ∷ [];
}

abbrev sensors : Sensors
sensors = record {
  ready = true;
  index = ten_seconds;
  history_enabled = false;
  items = temperature ∷ [];
}

process_all-limits_example :
    (out : SensorInfo) × (find_key sensor_key
        (process_all (codes "t") (pos 5 ∷ negsuc 6 ∷ pos 8 ∷ []) sensors).items
        (codes "t")
      ≡ some out)
    × (out.lowest_value ≡ negsuc 6)
    × (out.highest_value ≡ pos 8)
unfolding find_key str_eq
process_all-limits_example =
    process_all-limits (codes "t") (pos 5) (negsuc 6 ∷ pos 8 ∷ []) sensors temperature refl refl
      refl (refl, (refl, (refl, tt)))

abbrev pub a_system : System
a_system = record { page_size = 4096; clock_ticks = 100; processors = pos 4_000_000 }

abbrev old_process : ProcessInfo
old_process = record {
  exists = true;
  is_new = false;
  cpu_time = pos 0;
  last_clock_time = pos 0;
  threads = 1;
  pid = 7;
  cpu = pos 0;
  memory = 0;
  name = [];
  sample_id = 0;
}

abbrev pub no_entry : ProcEntry
no_entry = record {
  pid = 8;
  status = [];
  cmdline = none;
  stat = none;
  first_time = pos 0;
  difference_time = pos 0;
  last_time = pos 0;
}

abbrev pub one_process : Processes
one_process = record { items = old_process ∷ []; process_count = 1; thread_count = 1 }

-- The old process has no entry any more, and the entry of the new one cannot be read.
abbrev passed : Processes
passed =
    finish_update (update_processes whole a_system (no_entry ∷ []) (prepare_processes one_process))

finish_update-update_processes_example :
    ((pid : ℕ) → has_pid passed.items pid ≡ is_alive whole a_system (no_entry ∷ []) false pid)
    × AreSeparate passed.items
    × (passed.process_count ≡ 1)
    × (passed.thread_count ≡ 0)
finish_update-update_processes_example =
    finish_update-update_processes whole a_system (no_entry ∷ []) one_process (refl, tt)

abbrev pub disks : Disks
disks = record {
  ready = true;
  index = ten_seconds;
  session = 1;
  history_enabled = false;
  use_mount_paths = true;
  disable_filtering = false;
  custom_names = codes "/dev/sda1 \"Home\"" ∷ [];
  items = [];
}

abbrev mount : Bytes → Bytes → Bytes → Mount
mount name dir type = record { name = name; dir = dir; type = type; space = none }

abbrev pub mounts : List Mount
mounts =
    mount (codes "/dev/sda1") (codes "/home") (codes "ext4")
    ∷ mount (codes "tmpfs") (codes "/run") (codes "tmpfs")
    ∷ []

update_mounts-has_key_example :
    (t : Disks) × (update_mounts [] (λ key x. []) whole mounts disks ≡ done t)
    × ((key : Bytes) → has_key disk_key t.items key ≡ (is_wanted false mounts key || false))
unfolding explode has_key
update_mounts-has_key_example =
    update_mounts-has_key [] (λ key x. []) whole mounts disks (omega arith, tt)
