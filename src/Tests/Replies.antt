-- ===== src/Tests/Replies.antt =====
-- Samples, processes and devices at concrete inputs.
use istatserverlinux.Prelude.{
  none, some, ◌⊎◌, if◌then◌else◌, ℕ, true, false, List, [], ◌∷◌, ◌≡◌, arith,
}
use istatserverlinux.Prelude.Int.{pos}
use istatserverlinux.Text.{Bytes, codes}
use istatserverlinux.Stats.{Sample, ProcessInfo, DiskInfo}
use istatserverlinux.Responses.Samples.{newer_double, newer_long, newer_samples}
use istatserverlinux.Responses.Samples.Newest.{Cut, reversed, newer_samples_lem}
use istatserverlinux.Prelude.Outcome.{done}
use istatserverlinux.Text.Number.{show}
use istatserverlinux.Responses.Samples.{cat}
use istatserverlinux.Xml.{Node, Nodes, element, nil, cons}
use istatserverlinux.Stats.SmartMetadata.{DiskHealth, no_health, read_volumes, lookup}
use istatserverlinux.Stats.SmartMetadata.Volumes.{last_health, IsFresh, lookup-read_volumes}
use istatserverlinux.Responses.Health.{smart_devices}
use istatserverlinux.Responses.Health.Distinct.{AreDistinct, smart_devices-AreDistinct}
use istatserverlinux.Responses.Keys.{should_add_key}
use istatserverlinux.Responses.Process.{isr_process_data, last_sample_id, cpu_items, memory_items}
use istatserverlinux.Responses.Process.Top.{IsTop, IsBusier, IsLarger, isr_process_data-IsTop}
use istatserverlinux.Tests.Fixture.{standard}
use istatserverlinux.Tests.Sorting.{sort-IsSort}

abbrev sample_of : ℕ → Sample ℕ
sample_of id = record { sample_id = id; time = 0; values = id }

abbrev deque : List (Sample ℕ)
deque = sample_of 9 ∷ sample_of 8 ∷ sample_of 7 ∷ []

newer_samples_lem_example :
    ((c : Cut (newer_double (pos 7_000_000)) deque) × (newer_samples
          (newer_double (pos 7_000_000))
          deque
        ≡ reversed c.front))
    × ((c : Cut (newer_long (pos 7_000_000)) deque) × (newer_samples
            (newer_long (pos 7_000_000))
            deque
          ≡ reversed c.front))
newer_samples_lem_example = newer_samples_lem (pos 7_000_000) deque (ground arith)

abbrev process_of : ℕ → ℕ → ProcessInfo
process_of load memory = record {
  exists = true;
  is_new = false;
  cpu_time = pos 0;
  last_clock_time = pos 0;
  threads = 1;
  pid = load;
  cpu = pos load;
  memory = memory;
  name = codes "sh";
  sample_id = 1;
}

abbrev two_processes : List ProcessInfo
two_processes = process_of 2 8 ∷ process_of 3 4 ∷ []

isr_process_data-IsTop_example :
    (busy : List ProcessInfo) × (large : List ProcessInfo) × IsTop IsBusier 20 busy two_processes
    × IsTop IsLarger 20 large two_processes
    × (isr_process_data standard two_processes (codes "cpu" ∷ codes "memory" ∷ []) [] ≡ (
        let cpu = should_add_key 0 (codes "cpu") (codes "cpu" ∷ codes "memory" ∷ []) [] in
        let memory = should_add_key 0 (codes "memory") (codes "cpu" ∷ codes "memory" ∷ []) cpu.1 in
        done (
          cat (
              codes "<stat type=\"processes\" interval=\"0\" id=\""
              ∷ show (last_sample_id 0 two_processes)
              ∷ codes "\">"
              ∷ (if cpu.0 then cpu_items standard busy else [])
              ∷ (if memory.0 then memory_items standard large else [])
              ∷ codes "</stat>"
              ∷ []),
          memory.1,
        )))
isr_process_data-IsTop_example =
    isr_process_data-IsTop standard sort-IsSort (process_of 2 8) (process_of 3 4 ∷ [])
      (codes "cpu" ∷ codes "memory" ∷ []) []

abbrev disk_of : Bytes → DiskInfo
disk_of key = record {
  active = true;
  is_new = false;
  name = key;
  key = key;
  uuid = key;
  display_name = key;
  samples = [];
}

-- The disk is there twice, and once in the reply.
smart_devices-AreDistinct_example :
    AreDistinct (smart_devices 0 [] (disk_of (codes "sda") ∷ disk_of (codes "sda") ∷ []) [] []).0
smart_devices-AreDistinct_example =
    smart_devices-AreDistinct 0 [] (disk_of (codes "sda") ∷ disk_of (codes "sda") ∷ []) []

abbrev volume : Bytes → Node
volume state =
    element (codes "volume")
      ((codes "bsd", codes "sda") ∷ (codes "state", state) ∷ (codes "checked", codes "100") ∷ [])
      nil

-- Two checks of one disk, of which the last counts, at a time at which both are too old.
abbrev volumes : Nodes
volumes = cons (volume (codes "good")) (cons (volume (codes "bad")) nil)

lookup-read_volumes_example :
    (last_health (codes "sda") none volumes ≡ none)
      × (lookup (read_volumes [] volumes) 2000 (codes "sda") ≡ no_health)
    ⊎ ((h : DiskHealth) × (last_health (codes "sda") none volumes ≡ some h)
        × (IsFresh 2000 h × (lookup (read_volumes [] volumes) 2000 (codes "sda") ≡ h)
            ⊎ (¬ IsFresh 2000 h)
              × (lookup (read_volumes [] volumes) 2000 (codes "sda")
                  ≡ record h { state = codes "stale" })))
lookup-read_volumes_example = lookup-read_volumes volumes 2000 (codes "sda")
