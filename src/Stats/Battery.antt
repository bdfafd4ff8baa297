-- ===== src/Stats/Battery.antt =====
-- src/stats/StatsBattery.cpp with the files of /sys/class/power_supply: the batteries that are found,
-- and one reading of each. What the files hold is a parameter.
pub mod Charge
use istatserverlinux.Prelude.{
  ℕ, zero, suc, ◌+◌, ◌-◌, ◌*◌, ◌/◌, Bool, true, false, not, ◌&&◌, List, [], ◌∷◌, ◌++◌, Option, none,
  some, ltb, ◌==◌, if◌then◌else◌, length, take, drop,
}
use istatserverlinux.Prelude.Int.{ℤ, pos, negsuc, pos_part, neg_part, sub_ℕ, ltb_ℤ, eqb_ℤ, ◌-ℤ◌}
use istatserverlinux.Prelude.Outcome.{Outcome, done, crash, ◌>>=◌}
use istatserverlinux.Text.{Bytes, codes, str_eq, is_prefix}
use istatserverlinux.Text.Number.{to_int32}
use istatserverlinux.Text.Scan.{
  Directive, signed, word, plain, Value, text, int_or, scan, fgets_lines,
}
use istatserverlinux.Stats.{Floats, BatteryInfo}
use istatserverlinux.Stats.Schedule.{SampleIndex, prepare_update}
use istatserverlinux.Stats.Items.{has_key}

pub record Battery : Type 0 where
  pub index : SampleIndex
  pub items : List BatteryInfo

abbrev pub battery_key : BatteryInfo → Bytes
battery_key item = item.key

abbrev pub minus_one : ℤ
minus_one = negsuc 0

unfoldable pub create_battery : Bytes → Bytes → Bytes → List BatteryInfo → List BatteryInfo
unfolding has_key
create_battery key path adapter items =
    if has_key battery_key items key
    then items
    else record {
      key = key;
      path = path;
      adapterpath = adapter;
      active = false;
      present = pos 0;
      capacity_design = pos 0;
      capacity_full = pos 0;
      capacity_now = pos 0;
      capacity_rate = pos 0;
      voltage = pos 0;
      health = pos 0;
      time_remaining = pos 0;
      cycles = pos 0;
      state = pos 0;
      source = pos 0;
      percentage = pos 0;
    }
      ∷ items

abbrev pub directory : Bytes
directory = codes "/sys/class/power_supply/"

-- The paths of the names with the prefix, in the order of the directory.
abbrev pub paths_of : Bytes → List Bytes → List Bytes
paths_of front [] = []
paths_of front (name ∷ names) =
    if is_prefix front name
    then (directory ++ name) ∷ paths_of front names
    else paths_of front names

-- substr(length - n, n): a longer suffix than the text begins behind its end, and substr throws.
abbrev pub suffix_of : ℕ → Bytes → Outcome Bytes
suffix_of n s = if ltb (length s) n then crash else done (drop (length s - n) s)

unfoldable pub find_adapter : Bytes → List Bytes → Outcome Bytes
unfolding str_eq
find_adapter suffix [] = done []
find_adapter suffix (adapter ∷ adapters) = suffix_of (length suffix) adapter >>= λ s.
    if str_eq suffix s then done adapter else find_adapter suffix adapters

-- substr(3, length - 3) of the whole path
abbrev pub battery_suffix : Bytes → Bytes
battery_suffix path = drop 3 path

-- The loop over the batteries; `exists` tells whether a file can be opened.
unfoldable pub add_batteries :
    (Bytes → Bool) → List Bytes → List Bytes → List BatteryInfo → Outcome (List BatteryInfo)
unfolding find_adapter create_battery
add_batteries exists adapters [] items = done items
add_batteries exists adapters (path ∷ batteries) items =
    let uevent = path ++ codes "/uevent" in
    if exists uevent
    then (find_adapter (battery_suffix path) adapters >>= λ adapter.
        add_batteries exists adapters batteries (create_battery path uevent adapter items))
    else add_batteries exists adapters batteries items

-- init: closedir of a directory that could not be opened is a null pointer.
unfoldable pub init_batteries :
    (Bytes → Bool) → Option (List Bytes) → List BatteryInfo → Outcome (List BatteryInfo)
unfolding is_prefix add_batteries
init_batteries exists none items = crash
init_batteries exists (some names) items =
    add_batteries exists (paths_of (codes "A") names) (paths_of (codes "BAT") names) items

-- The variables of update.
pub record Reading : Type 0 where
  pub state : ℤ
  pub source : ℤ
  pub present : ℤ
  pub cycles : ℤ
  pub percentage : ℤ
  pub capacity_design : ℤ
  pub capacity_full : ℤ
  pub capacity_now : ℤ
  pub capacity_rate : ℤ
  pub voltage : ℤ

abbrev pub no_reading : Reading
no_reading = record {
  state = minus_one;
  source = pos 1;
  present = pos 1;
  cycles = pos 0;
  percentage = minus_one;
  capacity_design = pos 0;
  capacity_full = pos 0;
  capacity_now = pos 0;
  capacity_rate = pos 0;
  voltage = pos 0;
}

-- sscanf(buf, "POWER_SUPPLY_NAME=%d", &old)
abbrev pub scan_supply : Bytes → Bytes → ℤ → ℤ
scan_supply name buf old =
    int_or (scan (plain (codes "POWER_SUPPLY_" ++ (name ++ codes "=")) ++ signed ∷ []) buf) old

-- The state and the source of a status.
unfoldable pub status_of : Bytes → ℤ × ℤ
unfolding is_prefix
status_of status =
    if is_prefix (codes "Charging") status
    then (pos 1, pos 1)
    else if is_prefix (codes "Discharging") status
    then (pos 2, pos 0)
    else (pos 0, pos 1)

abbrev pub with_status : List Value → Reading → Reading
with_status (text status ∷ rest) r = record r {
  state = (status_of status).0;
  source = (status_of status).1;
}
with_status _ r = r

unfoldable pub battery_line : Bytes → Reading → Reading
unfolding scan status_of
battery_line buf r =
    with_status (scan (plain (codes "POWER_SUPPLY_STATUS=") ++ word ∷ []) buf) (record r {
      present = scan_supply (codes "PRESENT") buf r.present;
      cycles = scan_supply (codes "CYCLE_COUNT") buf r.cycles;
      percentage = scan_supply (codes "CAPACITY") buf r.percentage;
      capacity_design = scan_supply (codes "ENERGY_FULL_DESIGN") buf r.capacity_design;
      capacity_full = scan_supply (codes "ENERGY_FULL") buf r.capacity_full;
      capacity_now = scan_supply (codes "ENERGY_NOW") buf r.capacity_now;
      capacity_rate = scan_supply (codes "POWER_NOW") buf r.capacity_rate;
      voltage = scan_supply (codes "VOLTAGE_NOW") buf r.voltage;
    })

abbrev pub battery_lines : List Bytes → Reading → Reading
battery_lines [] r = r
battery_lines (buf ∷ rest) r = battery_lines rest (battery_line buf r)

abbrev pub is_positive : ℤ → Bool
is_positive = ltb_ℤ (pos 0)

-- (capacityNow / capacityFull) * 100, in int, where both are positive: the product wraps.
abbrev pub whole_percent : ℤ → ℤ → ℤ
whole_percent now full = to_int32 (pos ((pos_part now / pos_part full) * 100))

abbrev pub charge : Reading → ℤ
charge r =
    if eqb_ℤ r.percentage minus_one
    then (if is_positive r.capacity_full && is_positive r.capacity_now
        then whole_percent r.capacity_now r.capacity_full
        else pos 0)
    else r.percentage

abbrev pub at_most_100 : ℤ → ℤ
at_most_100 p = if ltb_ℤ (pos 100) p then pos 100 else p

module _ (f : Floats) where
  abbrev ratio : ℤ → ℤ → ℤ
  ratio a b = f.to_float (f.div (f.to_float (f.of_ll a)) (f.to_float (f.of_ll b)))

  abbrev hours : Reading → ℤ
  hours r =
      let missing = to_int32 (r.capacity_full -ℤ r.capacity_now) in
      if eqb_ℤ r.state (pos 1)
      then (if is_positive missing && is_positive r.capacity_rate
          then ratio missing r.capacity_rate
          else pos 0)
      else if eqb_ℤ r.state (pos 2)
      then (if is_positive r.capacity_now && is_positive r.capacity_rate
          then ratio r.capacity_now r.capacity_rate
          else pos 0)
      else pos 0

  -- A float to an int.
  abbrev truncate : ℤ → ℤ
  truncate (pos n) = pos (n / 1_000_000)
  truncate (negsuc n) = sub_ℕ 0 (suc n / 1_000_000)

  -- The item behind the reading.
  unfoldable pub read_battery : Reading → BatteryInfo → BatteryInfo
  read_battery r item = record item {
    active = true;
    state = r.state;
    source = r.source;
    present = r.present;
    cycles = r.cycles;
    percentage = at_most_100 (charge r);
    capacity_design = r.capacity_design;
    capacity_full = r.capacity_full;
    capacity_now = r.capacity_now;
    capacity_rate = r.capacity_rate;
    voltage = r.voltage;
    time_remaining = truncate (f.to_float (f.mul (hours r) (pos 60_000_000)));
    health =
        if is_positive r.capacity_design && is_positive r.capacity_full
        then f.to_float (f.mul (ratio r.capacity_full r.capacity_design) (pos 100_000_000))
        else pos 0;
  }

  -- update: a file that cannot be opened is a battery that is not present.
  abbrev pub update_battery : Option Bytes → BatteryInfo → BatteryInfo
  update_battery none item = record item { present = pos 0 }
  update_battery (some file) item =
      read_battery (battery_lines (fgets_lines 512 file) no_reading) item

  unfoldable pub update_batteries : (Bytes → Option Bytes) → List BatteryInfo → List BatteryInfo
  unfolding fgets_lines battery_line read_battery
  update_batteries file [] = []
  update_batteries file (item ∷ items) =
      update_battery (file item.path) item ∷ update_batteries file items

abbrev passivate : List BatteryInfo → List BatteryInfo
passivate [] = []
passivate (item ∷ items) = record item { active = false } ∷ passivate items

unfoldable pub prepare_battery : Battery → Battery
prepare_battery s = record { index = prepare_update s.index; items = passivate s.items }
