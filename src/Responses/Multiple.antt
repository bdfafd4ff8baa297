-- ===== src/Responses/Multiple.antt =====
-- `isr_multiple_data` of src/Responses.cpp: one reply for each child of the request and each sample
-- number that the child names.
use istatserverlinux.Prelude.{
  ℕ, ◌+◌, Bool, true, false, List, [], ◌∷◌, ◌++◌, Option, none, some, if◌then◌else◌, ◌==◌,
}
use istatserverlinux.Prelude.Int.{ℤ, pos}
use istatserverlinux.Prelude.Outcome.{Outcome, done, ◌>>=◌}
use istatserverlinux.Text.{Bytes, codes, str_eq}
use istatserverlinux.Text.Explode.{explode}
use istatserverlinux.Xml.{Node, Nodes, nil, cons, get_prop, children, is_element}
use istatserverlinux.Stats.{Standard, Stats}
use istatserverlinux.Responses.Samples.{to_long}
use istatserverlinux.Responses.Item.{
  Added, isr_network_data, isr_activity_data, isr_disk_data, isr_battery_data,
}
use istatserverlinux.Responses.Health.{isr_diskinfo_data, isr_smart_data}
use istatserverlinux.Responses.Sensor.{isr_sensor_data, isr_gpu_data}
use istatserverlinux.Responses.Process.{isr_process_data}

-- identifiers == NULL asks for everything.
unfoldable pub identifier_items : Option Bytes → List Bytes
identifier_items none = codes "0" ∷ []
identifier_items (some identifiers) = explode identifiers (codes "|")

comma_to_bar : Bytes → Bytes
comma_to_bar [] = []
comma_to_bar (c ∷ s) = (if c == b',' then b'|' else c) ∷ comma_to_bar s

unfoldable pub key_items : Option Bytes → List Bytes
unfolding comma_to_bar
key_items none = []
key_items (some keys) = explode (comma_to_bar keys) (codes "|")

module _ (standard : Standard) (type : Bytes) (stats : Stats) where
  open standard use {read_double}

  -- The chain of strcmp over the type.
  unfoldable pub isr_type_data : ℕ → ℤ → List Bytes → List Bytes → Outcome Added
  isr_type_data x id keys added =
      if str_eq type (codes "network")
      then isr_network_data standard x id keys stats.network added
      else if str_eq type (codes "diskactivity")
      then isr_activity_data standard x id keys stats.activity added
      else if str_eq type (codes "sensors")
      then isr_sensor_data standard x id keys stats.sensors added
      else if str_eq type (codes "disks")
      then isr_disk_data standard x id keys stats.disks added
      else if str_eq type (codes "diskinfo")
      then isr_diskinfo_data x keys stats.health stats.now stats.disks added
      else if str_eq type (codes "processes")
      then isr_process_data standard stats.processes keys added
      else if str_eq type (codes "battery")
      then isr_battery_data standard x id keys stats.battery added
      else if str_eq type (codes "smart")
      then isr_smart_data x keys stats.disks added
      else if str_eq type (codes "gpu")
      then isr_gpu_data standard x id keys stats.sensors added
      else done ([], added)

  unfoldable pub identifiers_data : ℕ → List Bytes → List Bytes → List Bytes → Outcome Added
  identifiers_data x [] keys added = done ([], added)
  identifiers_data x (id ∷ ids) keys added = do
    first ← isr_type_data x (to_long (read_double id)) keys added
    rest ← identifiers_data (x + 1) ids keys first.1
    done (first.0 ++ rest.0, rest.1)

  -- The flag is `processedChild`.
  unfoldable pub children_data : Bool → Nodes → List Bytes → Outcome (Bool × Added)
  unfolding identifiers_data
  children_data processed nil added = done (processed, ([], added))
  children_data processed (cons child siblings) added =
      let skip = children_data processed siblings added in
      let take = (do
        first ←
            identifiers_data 0 (identifier_items (get_prop child (codes "samples")))
              (key_items (get_prop child (codes "keys"))) added
        rest ← children_data true siblings first.1
        done (rest.0, (first.0 ++ rest.1.0, rest.1.1))) in
      if is_element child then take else skip

  -- A request with no child element is answered for three of the types.
  unfoldable pub childless_data : List Bytes → Outcome Bytes
  childless_data added =
      if str_eq type (codes "diskinfo")
      then (do out ← isr_diskinfo_data 0 [] stats.health stats.now stats.disks added; done out.0)
      else if str_eq type (codes "smart")
      then (do out ← isr_smart_data 0 [] stats.disks added; done out.0)
      else if str_eq type (codes "gpu")
      then (do out ← isr_gpu_data standard 0 (pos 0) [] stats.sensors added; done out.0)
      else done []

  unfoldable pub isr_multiple_data : Node → Outcome Bytes
  unfolding children_data childless_data
  isr_multiple_data node = do
    result ← children_data false (children node) []
    if result.0
        then done result.1.0
        else (do tail ← childless_data result.1.1; done (result.1.0 ++ tail))
