-- ===== src/Tests/Counters.antt =====
-- The collectors that read counters and files, at concrete inputs.
use istatserverlinux.Prelude.{
  ℕ, ◌+◌, ◌*◌, ◌≤◌, true, false, List, [], ◌∷◌, some, ◌≡◌, refl, arith, All,
}
use istatserverlinux.Prelude.Int.{pos, pos_part, ◌+ℤ◌, ◌-ℤ◌, negsuc}
use istatserverlinux.Text.{Bytes, codes, str_eq, is_prefix}
use istatserverlinux.Text.Number.{show}
use istatserverlinux.Text.Scan.{scan, fgets_lines, scan_number}
use istatserverlinux.Text.Scan.Lines.{joined}
use istatserverlinux.Stats.{Floats, Sample, NetworkInfo, BatteryInfo}
use istatserverlinux.Stats.Schedule.{SampleIndex}
use istatserverlinux.Stats.Window.{fold_interval}
use istatserverlinux.Stats.Window.Inside.{fold_interval-inside}
use istatserverlinux.Stats.Memory.{no_meminfo, read_meminfo}
use istatserverlinux.Stats.Memory.Entries.{Entry, IsEntry, texts, plain-IsName, read_meminfo-joined}
use istatserverlinux.Stats.Network.{Network, process_interface, prepare_network}
use istatserverlinux.Stats.Network.Polls.{IsPolled, polls-IsPolled}
use istatserverlinux.Stats.Battery.{battery_line, update_battery, at_most_100, whole_percent}
use istatserverlinux.Stats.Battery.Charge.{
  update_battery-percentage, shown_percentage, reading_of, HasRoom,
}
use istatserverlinux.Stats.Items.{has_key, find_key}

-- Doubles that are whole numbers: nothing is rounded, and a quotient is its dividend.
abbrev pub whole : Floats
whole = record {
  of_ull = λ n. pos (n * 1_000_000);
  of_ll = λ n. n;
  add = λ a b. a +ℤ b;
  sub = λ a b. a -ℤ b;
  mul = λ a b. a;
  div = λ a b. a;
  to_float = λ a. a;
}

abbrev pub ten_seconds : SampleIndex
ten_seconds = record {
  sample_id = 4;
  time = 10_000_000;
  next_time = 16_000_000;
  interval = 6_000_000;
  history_index = 0;
}

abbrev at : ℕ → ℕ → Sample ℕ
at time value = record { sample_id = 1; time = time; values = value }

abbrev readings : List (Sample ℕ)
readings = at 12_000_000 1 ∷ at 10_500_000 2 ∷ at 7_000_000 3 ∷ at 1_000_000 4 ∷ []

fold_interval-inside_example :
    ((fold_interval (λ a b. a + b) ten_seconds 0 readings).0 ≡ 5)
    × ((fold_interval (λ a b. a + b) ten_seconds 0 readings).1 ≡ 2)
fold_interval-inside_example =
    fold_interval-inside (λ a b. a + b) ten_seconds 0 readings
      (
        (omega arith, (omega arith, (omega arith, tt))),
        ((omega arith, (omega arith, tt)), ((omega arith, tt), (tt, tt))),
      )

abbrev entry : Bytes → ℕ → Entry
entry name value = record { name = name; pad = 3; value = value }

abbrev entries : List Entry
entries =
    entry (codes "MemTotal") 500 ∷ entry (codes "SwapCached") 6 ∷ entry (codes "Cached") 70 ∷ []

three-IsEntry : All IsEntry entries
unfolding show
three-IsEntry = (
  (plain-IsName (codes "MemTotal") refl, omega arith, omega arith),
  (
    (plain-IsName (codes "SwapCached") refl, omega arith, omega arith),
    ((plain-IsName (codes "Cached") refl, omega arith, omega arith), tt),
  ),
)

read_meminfo-joined_example :
    read_meminfo (joined (texts entries)) ≡ record no_meminfo { t = 500; c = 70 }
unfolding str_eq
read_meminfo-joined_example = read_meminfo-joined entries three-IsEntry

abbrev pub eth0 : NetworkInfo
eth0 = record {
  active = false;
  device = codes "eth0";
  addresses = [];
  last_down = 0;
  last_up = 0;
  samples = [] ∷ [] ∷ [] ∷ [] ∷ [] ∷ [] ∷ [] ∷ [] ∷ [];
}

abbrev pub network : Network
network = record {
  ready = true;
  index = ten_seconds;
  session = 1;
  history_enabled = false;
  items = eth0 ∷ [];
}

abbrev poll : ℕ → ℕ → Network → Network
poll up down s = process_interface (λ items. items) (λ key x. []) whole (codes "eth0") up down s

polls-IsPolled_example :
    IsPolled
      (codes "eth0")
      (record { d = pos 7_000_000; u = pos 0 })
      (prepare_network (poll 0 5 network))
      (poll 9 12 (prepare_network (poll 0 5 network)))
unfolding find_key has_key is_prefix
polls-IsPolled_example =
    polls-IsPolled (λ items. items) (λ key x. []) whole (codes "eth0") 0 5 9 12 network eth0 refl
      refl (refl, tt) refl (omega arith)

abbrev battery : BatteryInfo
battery = record {
  key = codes "BAT0";
  path = codes "BAT0/uevent";
  adapterpath = [];
  active = false;
  present = pos 0;
  capacity_design = pos 0;
  capacity_full = pos 0;
  capacity_now = pos 0;
  capacity_rate = pos 0;
  voltage = pos 0;
  health = pos 0;
  time_remaining = pos 0;
  cycles = pos 0;
  state = pos 0;
  source = pos 0;
  percentage = pos 0;
}

-- The energy is nearly full, and the percentage 0.
abbrev uevent : Bytes
uevent = codes "POWER_SUPPLY_ENERGY_FULL=50\nPOWER_SUPPLY_ENERGY_NOW=49\n"

uevent-HasRoom : HasRoom (reading_of uevent)
unfolding fgets_lines scan scan_number battery_line
uevent-HasRoom absent positive = omega arith

update_battery-percentage_example :
    ((update_battery whole (some uevent) battery).active ≡ true)
    × ((update_battery whole (some uevent) battery).percentage
        ≡ shown_percentage (reading_of uevent))
    × (pos_part (update_battery whole (some uevent) battery).percentage ≤ 100)
update_battery-percentage_example = update_battery-percentage whole uevent battery uevent-HasRoom

nearly_full : shown_percentage (reading_of uevent) ≡ pos 0
unfolding fgets_lines scan scan_number battery_line
nearly_full = refl

-- The product with 100 overflows, and less than nothing is shown.
overflows : at_most_100 (whole_percent (pos 2_147_483_647) (pos 1)) ≡ negsuc 99
overflows = refl
