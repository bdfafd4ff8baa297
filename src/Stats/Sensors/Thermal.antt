-- ===== src/Stats/Sensors/Thermal.antt =====
-- The thermal zones of /sys/class/thermal in src/stats/StatsSensors.cpp. A directory is the list of
-- its names, and `file` gives what can be read at a path.
use istatserverlinux.Prelude.{
  ℕ, suc, ◌-◌, Bool, false, not, ◌&&◌, List, [], ◌∷◌, ◌++◌, Option, none, some, ltb, ◌==◌,
  if◌then◌else◌, length, get_or, drop,
}
use istatserverlinux.Prelude.Int.{ℤ, pos}
use istatserverlinux.Text.{Bytes, codes, str_eq, is_prefix}
use istatserverlinux.Text.Number.{is_digit, atoi, show, show_ℤ}
use istatserverlinux.Stats.{Floats}
use istatserverlinux.Stats.Items.{change_first}
use istatserverlinux.Stats.Sensors.{
  Sensors, SensorTables, sensor_key, set_meta, create_sensor, process_sensor,
}
use istatserverlinux.Stats.Sensors.Files.{read_sysfs_string, read_sysfs_ll, pretty_thermal_label}

abbrev thermal : Bytes
thermal = codes "/sys/class/thermal/"

module _ (file : Bytes → Option Bytes) where
  abbrev pub is_zone : Bytes → Bool
  is_zone name = is_prefix (codes "thermal_zone") name

  abbrev pub type_of : Bytes → Option Bytes
  type_of name = read_sysfs_string (file (thermal ++ (name ++ codes "/type")))

  abbrev pub temp_of : Bytes → Option ℤ
  temp_of name = read_sysfs_ll (file (thermal ++ (name ++ codes "/temp")))

  abbrev pub zone_key : Bytes → Bytes → Bytes
  zone_key name type = codes "thermal:" ++ (type ++ (b':' ∷ show_ℤ (atoi (drop 12 name))))

  abbrev is_type : Bytes → Option Bytes → Bool
  is_type type none = false
  is_type type (some t) = str_eq t type

  -- type_counts[type]: the zones of the type, whether or not their temperature can be read.
  unfoldable pub count_type : Bytes → List Bytes → ℕ
  unfolding is_prefix read_sysfs_string str_eq
  count_type type [] = 0
  count_type type (name ∷ names) =
      if is_zone name && is_type type (type_of name)
      then suc (count_type type names)
      else count_type type names

  -- type_seen[type]
  abbrev pub seen_of : Bytes → List Bytes → ℕ
  seen_of type [] = 0
  seen_of type (t ∷ seen) = if str_eq t type then suc (seen_of type seen) else seen_of type seen

  abbrev ends_with_digit : Bytes → Bool
  ends_with_digit label = not (length label == 0) && is_digit (get_or label (length label - 1) 0)

  -- The label, with the number of zones of the type before it where there are several.
  unfoldable pub zone_label : Bytes → ℕ → ℕ → Bytes
  unfolding pretty_thermal_label show
  zone_label type total seen =
      let base = pretty_thermal_label type in
      if ltb 1 total && not (ends_with_digit base) then base ++ (32 ∷ show seen) else base

  unfoldable pub add_zone : SensorTables → Bytes → Bytes → Bytes → Sensors → Sensors
  unfolding create_sensor change_first
  add_zone db name type label s =
      let (t, created) = create_sensor db (zone_key name type) s in
      if created
      then record t {
        items = change_first sensor_key (set_meta 10 0 label) t.items (zone_key name type);
      }
      else t

  abbrev pub with_zone : {A : Type 0} → Option Bytes → Option ℤ → A → (Bytes → ℤ → A) → A
  with_zone none raw other f = other
  with_zone (some type) none other f = other
  with_zone (some type) (some raw) other f = f type raw

  -- One name of the second pass, with the types of the zones before.
  abbrev pub zone_round :
      SensorTables → List Bytes → Bytes → List Bytes → Sensors → List Bytes × Sensors
  zone_round db all name seen s =
      if is_zone name
      then with_zone (type_of name) (temp_of name) (seen, s)
          (λ type raw. (
            type ∷ seen,
            add_zone db name type (zone_label type (count_type type all) (seen_of type seen)) s,
          ))
      else (seen, s)

  unfoldable pub add_zones : SensorTables → List Bytes → List Bytes → List Bytes → Sensors → Sensors
  unfolding is_prefix read_sysfs_string read_sysfs_ll count_type zone_label add_zone
  add_zones db all [] seen s = s
  add_zones db all (name ∷ names) seen s =
      let (types, t) = zone_round db all name seen s in add_zones db all names types t

  -- A directory that cannot be opened is `none`.
  unfoldable pub init_sysfs_thermal : SensorTables → Option (List Bytes) → Sensors → Sensors
  unfolding add_zones
  init_sysfs_thermal db none s = s
  init_sysfs_thermal db (some names) s = add_zones db names names [] s

  module _ (f : Floats) where
    abbrev pub read_zone : Bytes → Sensors → Sensors
    read_zone name s =
        if is_zone name
        then with_zone (type_of name) (temp_of name) s (λ type raw.
          process_sensor (zone_key name type) (f.div (f.of_ll raw) (pos 1_000_000_000)) s)
        else s

    unfoldable pub update_sysfs_thermal : List Bytes → Sensors → Sensors
    unfolding is_prefix read_sysfs_string read_sysfs_ll process_sensor
    update_sysfs_thermal [] s = s
    update_sysfs_thermal (name ∷ names) s = update_sysfs_thermal names (read_zone name s)
