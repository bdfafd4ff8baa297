-- ===== src/Responses/Finish.antt =====
-- The ends of the replies of src/Responses.cpp: a text, or a read that is undefined.
use istatserverlinux.Prelude.{
  ℕ, ◌+◌, Bool, true, false, not, List, [], ◌∷◌, if◌then◌else◌, get_elem?,
}
use istatserverlinux.Prelude.Int.{ℤ, pos}
use istatserverlinux.Prelude.Outcome.{
  Outcome, done, deref, Ends, ends_done, Ends-bind, Ends-if, Ends-deref, ends_rules,
}
use istatserverlinux.Text.{Bytes, codes}
use istatserverlinux.Xml.{Node, Nodes, nil, cons, get_prop, is_element, children}
use istatserverlinux.Stats.{
  Standard, Stats, Collector, NetworkInfo, ActivityInfo, DiskInfo, SensorInfo, BatteryInfo,
  ProcessInfo,
}
use istatserverlinux.Responses.Series.{
  each_identifier, cpu_stat, load_stat, memory_stat, isr_cpu_data, isr_memory_data,
  isr_loadavg_data,
}
use istatserverlinux.Responses.Keys.{should_add_key}
use istatserverlinux.Responses.Item.{
  Added, each_item, if_added, stat_of, isr_network_data, isr_activity_data, isr_disk_data,
  isr_battery_data,
}
use istatserverlinux.Stats.SmartMetadata.{DiskHealth}
use istatserverlinux.Responses.Health.{disk_requested, isr_diskinfo_data, isr_smart_data}
use istatserverlinux.Responses.Sensor.{gpu_only_unit, is_gpu_sensor, isr_sensor_data, isr_gpu_data}
use istatserverlinux.Responses.Process.{isr_process_data}
use istatserverlinux.Responses.Multiple.{
  identifier_items, key_items, isr_type_data, identifiers_data, children_data, childless_data,
  isr_multiple_data,
}
use istatserverlinux.Responses.Samples.{to_long}

each_identifier-Ends :
    (stat : ℕ → Bytes → Outcome Bytes) (x : ℕ) (ids : List Bytes)
    → ((x : ℕ) (id : Bytes) → Ends (stat x id))
    → Ends (each_identifier stat x ids)
unfolding each_identifier
each_identifier-Ends stat x [] h = ends_done []
each_identifier-Ends stat x (id ∷ ids) h = Ends-bind (stat x id) _ (h x id) (λ output.
    Ends-bind (each_identifier stat (x + 1) ids) _ (each_identifier-Ends stat (x + 1) ids h)
      (λ rest. ends_done _))

module _ (standard : Standard) (stats : Stats) where
  cpu_stat-Ends : (x : ℕ) (id : Bytes) → Ends (cpu_stat standard stats x id)
  unfolding cpu_stat
  cpu_stat-Ends x id = search ends_rules

  load_stat-Ends : (x : ℕ) (id : Bytes) → Ends (load_stat standard stats x id)
  unfolding load_stat
  load_stat-Ends x id = search ends_rules

  memory_stat-Ends : (x : ℕ) (id : Bytes) → Ends (memory_stat standard stats x id)
  unfolding memory_stat
  memory_stat-Ends x id = search ends_rules

  pub isr_cpu_data-Ends : (node : Node) → Ends (isr_cpu_data standard node stats)
  unfolding isr_cpu_data
  isr_cpu_data-Ends node =
      Ends-bind (deref (get_prop node (codes "samples"))) _ (Ends-deref _)
        (λ ids. each_identifier-Ends (cpu_stat standard stats) 0 _ cpu_stat-Ends)

  pub isr_loadavg_data-Ends : (node : Node) → Ends (isr_loadavg_data standard node stats)
  unfolding isr_loadavg_data
  isr_loadavg_data-Ends node =
      Ends-bind (deref (get_prop node (codes "samples"))) _ (Ends-deref _)
        (λ ids. each_identifier-Ends (load_stat standard stats) 0 _ load_stat-Ends)

  pub isr_memory_data-Ends : (node : Node) → Ends (isr_memory_data standard node stats)
  unfolding isr_memory_data
  isr_memory_data-Ends node =
      Ends-bind (deref (get_prop node (codes "samples"))) _ (Ends-deref _)
        (λ ids. each_identifier-Ends (memory_stat standard stats) 0 _ memory_stat-Ends)

each_item-Ends :
    {A : Type 0} (body : A → List Bytes → Outcome Added) (items : List A) (added : List Bytes)
    → ((item : A) (added : List Bytes) → Ends (body item added))
    → Ends (each_item body items added)
unfolding each_item
each_item-Ends body [] added h = ends_done _
each_item-Ends body (item ∷ items) added h = Ends-bind (body item added) _ (h item added) (λ first.
    Ends-bind (each_item body items first.1) _ (each_item-Ends body items first.1 h)
      (λ rest. ends_done _))

stat_of-Ends :
    {A : Type 0} (type tail : Bytes) (index : ℕ) (stats : Collector A)
    (body : A → List Bytes → Outcome Added) (added : List Bytes)
    → ((item : A) (added : List Bytes) → Ends (body item added))
    → Ends (stat_of type tail index stats body added)
unfolding stat_of
stat_of-Ends type tail index stats body added h =
    Ends-bind (deref (get_elem? stats.sample_ids index)) _ (Ends-deref _) (λ id.
      Ends-bind (each_item body stats.items added) _ (each_item-Ends body stats.items added h)
        (λ items. ends_done _))

if_added-Ends :
    (index : ℕ) (key : Bytes) (keys added : List Bytes) (text : Outcome Bytes)
    → Ends text
    → Ends (if_added index key keys added text)
unfolding if_added
if_added-Ends index key keys added text h =
    Ends-if (should_add_key index key keys added).0 _ _ (Ends-bind text _ h (λ output. ends_done _))
      (ends_done _)

item-Ends :
    (passed : Bool) (index : ℕ) (key : Bytes) (keys added : List Bytes) (text : Outcome Bytes)
    → Ends text
    → Ends (if passed then done ([], added) else if_added index key keys added text)
item-Ends passed index key keys added text h =
    Ends-if passed _ _ (ends_done _) (if_added-Ends index key keys added text h)

module _ (standard : Standard) (index : ℕ) (id : ℤ) (keys added : List Bytes) where
  network-Ends :
      (stats : Collector NetworkInfo) → Ends (isr_network_data standard index id keys stats added)
  unfolding isr_network_data
  network-Ends stats =
      stat_of-Ends (codes "network") [] index stats _ added
        (λ item now. item-Ends (not item.active) index _ keys now _ (search ends_rules))

  activity-Ends :
      (stats : Collector ActivityInfo) → Ends (isr_activity_data standard index id keys stats added)
  unfolding isr_activity_data
  activity-Ends stats =
      stat_of-Ends (codes "diskactivity") [] index stats _ added
        (λ item now. item-Ends (not item.active) index _ keys now _ (search ends_rules))

  disk-Ends : (stats : Collector DiskInfo) → Ends (isr_disk_data standard index id keys stats added)
  unfolding isr_disk_data
  disk-Ends stats =
      stat_of-Ends (codes "disks") [] index stats _ added
        (λ item now. item-Ends (not item.active) index _ keys now _ (search ends_rules))

  battery-Ends :
      (stats : Collector BatteryInfo) → Ends (isr_battery_data standard index id keys stats added)
  unfolding isr_battery_data
  battery-Ends stats =
      stat_of-Ends (codes "battery") [] index stats _ added
        (λ item now. if_added-Ends index _ keys now _ (ends_done _))

  sensor-Ends :
      (stats : Collector SensorInfo) → Ends (isr_sensor_data standard index id keys stats added)
  unfolding isr_sensor_data
  sensor-Ends stats =
      stat_of-Ends (codes "sensors") (codes " partial=\"1\"") index stats _ added
        (λ item now. item-Ends (gpu_only_unit item) index _ keys now _ (search ends_rules))

  gpu-Ends : (stats : Collector SensorInfo) → Ends (isr_gpu_data standard index id keys stats added)
  unfolding isr_gpu_data
  gpu-Ends stats =
      stat_of-Ends (codes "gpu") (codes " partial=\"1\"") index stats _ added
        (λ item now. item-Ends (not (is_gpu_sensor item)) index _ keys now _ (search ends_rules))

  process-Ends : (items : List ProcessInfo) → Ends (isr_process_data standard items keys added)
  unfolding isr_process_data
  process-Ends [] = ends_done _
  process-Ends (p ∷ ps) = ends_done _

module _ (index : ℕ) (keys added : List Bytes) (volumes : List (Bytes × DiskHealth)) (now : ℕ) where
  diskinfo-Ends :
      (stats : Collector DiskInfo) → Ends (isr_diskinfo_data index keys volumes now stats added)
  unfolding isr_diskinfo_data
  diskinfo-Ends stats = stat_of-Ends (codes "diskinfo") [] index stats _ added (λ item had.
      Ends-if (not item.active) _ _ (ends_done _)
        (item-Ends (not (disk_requested item keys)) index item.key [] had _ (ends_done _)))

  smart-Ends : (stats : Collector DiskInfo) → Ends (isr_smart_data index keys stats added)
  unfolding isr_smart_data
  smart-Ends stats = search ends_rules

module _ (standard : Standard) (type : Bytes) (stats : Stats) where
  isr_type_data-Ends :
      (x : ℕ) (id : ℤ) (keys added : List Bytes)
      → Ends (isr_type_data standard type stats x id keys added)
  unfolding isr_type_data
  isr_type_data-Ends x id keys added =
      Ends-if _ _ _ (network-Ends standard x id keys added stats.network) (
        Ends-if _ _ _ (activity-Ends standard x id keys added stats.activity) (
          Ends-if _ _ _ (sensor-Ends standard x id keys added stats.sensors) (
            Ends-if _ _ _ (disk-Ends standard x id keys added stats.disks) (
              Ends-if _ _ _ (diskinfo-Ends x keys added stats.health stats.now stats.disks) (
                Ends-if _ _ _ (process-Ends standard x id keys added stats.processes) (
                  Ends-if _ _ _ (battery-Ends standard x id keys added stats.battery) (
                    Ends-if _ _ _ (smart-Ends x keys added stats.health stats.now stats.disks) (
                      Ends-if _ _ _ (gpu-Ends standard x id keys added stats.sensors)
                        (ends_done _)))))))))

  identifiers_data-Ends :
      (x : ℕ) (ids keys added : List Bytes)
      → Ends (identifiers_data standard type stats x ids keys added)
  unfolding identifiers_data
  identifiers_data-Ends x [] keys added = ends_done _
  identifiers_data-Ends x (id ∷ ids) keys added =
      Ends-bind (isr_type_data standard type stats x (to_long (standard.read_double id)) keys added)
        _ (isr_type_data-Ends x _ keys added)
        (λ first.
          Ends-bind (identifiers_data standard type stats (x + 1) ids keys first.1) _
            (identifiers_data-Ends (x + 1) ids keys first.1) (λ rest. ends_done _))

  children_data-Ends :
      (processed : Bool) (children : Nodes) (added : List Bytes)
      → Ends (children_data standard type stats processed children added)
  unfolding children_data
  children_data-Ends processed nil added = ends_done _
  children_data-Ends processed (cons child siblings) added =
      Ends-if (is_element child) _ _
        (Ends-bind
          (identifiers_data standard type stats 0
            (identifier_items (get_prop child (codes "samples")))
            (key_items (get_prop child (codes "keys"))) added)
          _ (identifiers_data-Ends 0 _ _ added)
          (λ first.
            Ends-bind (children_data standard type stats true siblings first.1) _
              (children_data-Ends true siblings first.1) (λ rest. ends_done _)))
        (children_data-Ends processed siblings added)

  childless_data-Ends : (added : List Bytes) → Ends (childless_data standard type stats added)
  unfolding childless_data
  childless_data-Ends added =
      Ends-if _ _ _
        (Ends-bind _ _ (diskinfo-Ends 0 [] added stats.health stats.now stats.disks)
          (λ out. ends_done _))
        (Ends-if _ _ _
          (Ends-bind _ _ (smart-Ends 0 [] added stats.health stats.now stats.disks)
            (λ out. ends_done _))
          (Ends-if _ _ _
            (Ends-bind _ _ (gpu-Ends standard 0 (pos 0) [] added stats.sensors)
              (λ out. ends_done _))
            (ends_done _)))

  pub isr_multiple_data-Ends : (node : Node) → Ends (isr_multiple_data standard type stats node)
  unfolding isr_multiple_data
  isr_multiple_data-Ends node =
      Ends-bind (children_data standard type stats false (children node) []) _
        (children_data-Ends false (children node) [])
        (λ result. Ends-if result.0 _ _ (ends_done _) (
          Ends-bind (childless_data standard type stats result.1.1) _
            (childless_data-Ends result.1.1) (λ tail. ends_done _)))
