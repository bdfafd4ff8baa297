-- ===== src/Stats/Sensors/Files.antt =====
-- The readers of the files of /sys in src/stats/StatsSensors.cpp, on the contents of the file, and
-- the labels of the thermal zones.
use istatserverlinux.Prelude.{
  ℕ, suc, ◌^◌, Bool, ◌||◌, [], ◌∷◌, ◌++◌, Option, none, some, ltb, ◌==◌, if◌then◌else◌, length,
  take, drop,
}
use istatserverlinux.Prelude.Int.{ℤ}
use istatserverlinux.Text.{Bytes, codes, str_eq, is_prefix}
use istatserverlinux.Text.Number.{clamp_long, long_max}
use istatserverlinux.Text.Trim.{find_last_not_of}
use istatserverlinux.Text.Scan.{scan_number, digits_length}

abbrev long_long : Option (Bool × ℕ × Bytes) → Option ℤ
long_long none = none
long_long (some (minus, n, rest)) = some (clamp_long minus n)

-- fscanf(f, "%lld", &v)
unfoldable pub read_sysfs_ll : Option Bytes → Option ℤ
unfolding scan_number
read_sysfs_ll none = none
read_sysfs_ll (some file) = long_long (scan_number file)

-- The loop that takes bytes of the set off the end.
abbrev strip : Bytes → Bytes → Bytes
strip set s = elim (find_last_not_of set s) [ none ↦ [] | some i ↦ take (suc i) s ]

abbrev stripped : Bytes → Bytes → Option Bytes
stripped set file = if length file == 0 then none else some (strip set (take 255 file))

unfoldable pub read_sysfs_string : Option Bytes → Option Bytes
unfolding find_last_not_of
read_sysfs_string none = none
read_sysfs_string (some file) = stripped (codes "\n\r \t") file

-- strtoll sets errno where the number is out of range.
abbrev in_range : Option (Bool × ℕ × Bytes) → Option ℤ
in_range none = none
in_range (some (minus, n, rest)) =
    if ltb (if minus then 2 ^ 63 else long_max) n then none else some (clamp_long minus n)

unfoldable pub read_longlong : Option Bytes → Option ℤ
unfolding scan_number find_last_not_of
read_longlong none = none
read_longlong (some file) =
    if length file == 0
    then none
    else in_range (scan_number (strip (codes "\n\r \t") (take 63 file)))

unfoldable pub read_string : Option Bytes → Option Bytes
unfolding find_last_not_of
read_string none = none
read_string (some file) = stripped (codes "\n\r") file

-- The number behind the first bytes of a type, with a name in front.
abbrev numbered : Bytes → Bytes → Bytes
numbered name rest =
    let num = take (digits_length rest) rest in if length num == 0 then name else name ++ (32 ∷ num)

unfoldable pub pretty_thermal_label : Bytes → Bytes
unfolding is_prefix str_eq digits_length
pretty_thermal_label type =
    if is_prefix (codes "cpu") type
    then numbered (codes "CPU") (drop 3 type)
    else if is_prefix (codes "gpu") type
    then numbered (codes "GPU") (drop 3 type)
    else if is_prefix (codes "mali") type
    then numbered (codes "GPU") (drop 4 type)
    else if is_prefix (codes "ddr") type || is_prefix (codes "mem") type
    then codes "Memory"
    else if str_eq type (codes "soc-thermal") || str_eq type (codes "soc_thermal")
    then codes "SoC"
    else type
