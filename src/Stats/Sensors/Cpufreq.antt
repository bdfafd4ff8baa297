-- ===== src/Stats/Sensors/Cpufreq.antt =====
-- The processors' frequencies of /sys/devices/system/cpu in src/stats/StatsSensors.cpp.
pub mod Related
use istatserverlinux.Prelude.{
  ℕ, zero, suc, ◌+◌, ◌-◌, Bool, true, false, not, ◌&&◌, List, [], ◌∷◌, ◌++◌, Option, none, some,
  ltb, ◌==◌, if◌then◌else◌, length, get_or, drop, ◌≡◌, refl,
}
use istatserverlinux.Prelude.Int.{ℤ, pos, negsuc, pos_part, neg_part, ltb_ℤ}
use istatserverlinux.Prelude.Outcome.{Outcome, done, no_fuel, ◌>>=◌}
use istatserverlinux.Text.{Bytes, codes, is_prefix}
use istatserverlinux.Text.Number.{is_digit, atoi, show, show_ℤ, clamp_long, to_int32}
use istatserverlinux.Text.Scan.{scan_number}
use istatserverlinux.Stats.{Floats}
use istatserverlinux.Stats.Items.{has_key}
use istatserverlinux.Stats.Sensors.{Sensors, SensorTables, sensor_key, add_sensor, process_sensor}
use istatserverlinux.Stats.Sensors.Files.{read_sysfs_string, read_sysfs_ll}

-- while (*s == ' ' || *s == '\n' || *s == '\t') ++s
abbrev pub skip_blanks : Bytes → Bytes
skip_blanks [] = []
skip_blanks (c ∷ s) =
    if c == 32
    then skip_blanks s
    else if c == 10
    then skip_blanks s
    else if c == 9
    then skip_blanks s
    else c ∷ s

-- strtol(s, &s, 10), as an int: where there is no number, s stays.
abbrev pub strtol_at : Bytes → Option (Bool × ℕ × Bytes) → ℤ × Bytes
strtol_at s none = (pos 0, s)
strtol_at s (some (minus, n, rest)) = (to_int32 (clamp_long minus n), rest)

abbrev next_int : ℤ → ℤ
next_int (pos n) = pos (suc n)
next_int (negsuc zero) = pos 0
next_int (negsuc (suc n)) = negsuc n

abbrev pub ints_from : ℕ → ℤ → List ℤ
ints_from zero a = []
ints_from (suc count) a = a ∷ ints_from count (next_int a)

-- for (int i = a; i <= b; i++) cpus.push_back(i)
abbrev pub ints_to : ℤ → ℤ → List ℤ
ints_to a b = ints_from ((pos_part b + neg_part a + 1) - (neg_part b + pos_part a)) a

-- The end of a range a-b, or a itself.
abbrev pub range_end : ℤ → Bytes → ℤ × Bytes
range_end a [] = (a, [])
range_end a (c ∷ s) = if c == b'-' then strtol_at s (scan_number s) else (a, c ∷ s)

-- while (*s): a text that strtol does not read is read again and again.
unfoldable pub parse_cpus : ℕ → Bytes → List ℤ → Outcome (List ℤ)
unfolding scan_number
parse_cpus zero s cpus = no_fuel
parse_cpus (suc fuel) s cpus = elim (skip_blanks s) [
  | [] ↦ done cpus
  | c ∷ rest ↦
      let (a, behind) = strtol_at (c ∷ rest) (scan_number (c ∷ rest)) in
      let (b, next) = range_end a behind in parse_cpus fuel next (cpus ++ ints_to a b)
]

module _ (file : Bytes → Option Bytes) where
  abbrev cpu_dir : Bytes
  cpu_dir = codes "/sys/devices/system/cpu/"

  abbrev pub policy_path : ℕ → Bytes → Bytes
  policy_path p name = cpu_dir ++ (codes "cpufreq/policy" ++ (show p ++ (b'/' ∷ name)))

  abbrev pub cpu_key : ℤ → Bytes
  cpu_key cpu = codes "cpu" ++ (show_ℤ cpu ++ codes "_freq")

  abbrev pub policy_key : ℕ → Bytes
  policy_key p = codes "cpufreq:policy" ++ show p

  abbrev pub can_read : Bytes → Bool
  can_read path = elim (file path) [ none ↦ false | some text ↦ true ]

  abbrev pub text_or_empty : Option Bytes → Bytes
  text_or_empty none = []
  text_or_empty (some text) = text

  module _ (db : SensorTables) where
    unfoldable pub add_cpu : ℤ → Sensors → Sensors
    unfolding add_sensor
    add_cpu cpu s =
        add_sensor db (cpu_key cpu) 11 8 (codes "CPU " ++ (show_ℤ cpu ++ codes " Frequency")) s

    unfoldable pub add_cpus : List ℤ → Sensors → Sensors
    unfolding add_cpu
    add_cpus [] s = s
    add_cpus (cpu ∷ cpus) s = add_cpus cpus (add_cpu cpu s)

    abbrev pub policy_sensors : ℕ → List ℤ → Sensors → Sensors
    policy_sensors p [] s =
        add_sensor db (policy_key p) 11 8 (codes "CPU policy " ++ (show p ++ codes " Frequency")) s
    policy_sensors p (cpu ∷ cpus) s = add_cpus (cpu ∷ cpus) s

    abbrev pub related_cpus : ℕ → ℕ → Outcome (List ℤ)
    related_cpus fuel p =
        parse_cpus fuel
          (text_or_empty (read_sysfs_string (file (policy_path p (codes "related_cpus"))))) []

    -- for (int p = 0; p < 128; ++p), `count` of them still to come. The flag is `any`.
    unfoldable pub init_policies : ℕ → ℕ → ℕ → Bool → Sensors → Outcome (Bool × Sensors)
    unfolding parse_cpus read_sysfs_string add_cpus add_sensor
    init_policies fuel zero p any s = done (any, s)
    init_policies fuel (suc count) p any s =
        elim (can_read (policy_path p (codes "scaling_cur_freq"))) [
          | false ↦ init_policies fuel count (p + 1) any s
          | true ↦ related_cpus fuel p >>= λ cpus.
              init_policies fuel count (p + 1) true (policy_sensors p cpus s)
        ]

    abbrev is_cpu : Bytes → Bool
    is_cpu name = is_prefix (codes "cpu") name && is_digit (get_or name 3 0)

    -- The directories of the processors, where there is no policy.
    unfoldable pub init_cpus : List Bytes → Sensors → Sensors
    unfolding is_prefix add_cpu
    init_cpus [] s = s
    init_cpus (name ∷ names) s = init_cpus names (
        if is_cpu name && can_read (cpu_dir ++ (name ++ codes "/cpufreq/scaling_cur_freq"))
        then add_cpu (atoi (drop 3 name)) s
        else s)

    abbrev pub fallback : Option (List Bytes) → Bool × Sensors → Sensors
    fallback names (true, s) = s
    fallback none (false, s) = s
    fallback (some names) (false, s) = init_cpus names s

    unfoldable pub init_sysfs_cpufreq : ℕ → Option (List Bytes) → Sensors → Outcome Sensors
    unfolding init_policies init_cpus
    init_sysfs_cpufreq fuel names s =
        init_policies fuel 128 0 false s >>= λ r. done (fallback names r)

  module _ (f : Floats) where
    abbrev pub process_khz : Bytes → Option ℤ → Sensors → Sensors
    process_khz key none s = s
    process_khz key (some khz) s = process_sensor key (f.div (f.of_ll khz) (pos 1_000_000_000)) s

    abbrev first_of : Option ℤ → Option ℤ → Option ℤ
    first_of none other = other
    first_of (some khz) other = some khz

    -- The processors from `cpu` on, `count` of them; the file of the policy stands in for its own.
    unfoldable pub update_cpus : ℕ → ℕ → Sensors → Sensors
    unfolding has_key read_sysfs_ll process_sensor
    update_cpus zero cpu s = s
    update_cpus (suc count) cpu s = update_cpus count (cpu + 1) (
        if has_key sensor_key s.items (cpu_key (pos cpu))
        then process_khz (cpu_key (pos cpu))
            (first_of
              (read_sysfs_ll (
                file (cpu_dir ++ (codes "cpu" ++ (show cpu ++ codes "/cpufreq/scaling_cur_freq")))))
              (read_sysfs_ll (file (policy_path cpu (codes "scaling_cur_freq")))))
            s
        else s)

    unfoldable pub update_policies : ℕ → ℕ → Sensors → Sensors
    unfolding has_key read_sysfs_ll process_sensor
    update_policies zero p s = s
    update_policies (suc count) p s = update_policies count (p + 1) (
        if has_key sensor_key s.items (policy_key p)
        then process_khz (policy_key p)
            (read_sysfs_ll (file (policy_path p (codes "scaling_cur_freq")))) s
        else s)

    unfoldable pub update_sysfs_cpufreq : Sensors → Sensors
    unfolding update_cpus update_policies
    update_sysfs_cpufreq s = update_policies 128 0 (update_cpus 256 0 s)
