-- ===== src/Responses/Device.antt =====
-- The device names of src/Responses.cpp: from a disk's key to the physical device that holds it.
use istatserverlinux.Prelude.{
  ℕ, ◌+◌, Bool, true, false, ◌&&◌, ◌||◌, [], ◌∷◌, ◌++◌, Option, none, some, ◌≡◌, refl, ltb, leb,
  ◌==◌, if◌then◌else◌, length, take, drop,
}
use istatserverlinux.Text.{rfind_char, Bytes, codes, is_prefix}
use istatserverlinux.Text.Number.{is_digit}
use istatserverlinux.Text.Explode.{find_char}

abbrev behind : Bytes → Option ℕ → Bytes
behind path none = path
behind path (some pos) = drop (pos + 1) path

unfoldable pub basename_for_path : Bytes → Bytes
unfolding rfind_char
basename_for_path path = behind path (rfind_char b'/' path)

unfoldable pub bsd_name_for_disk_key : Bytes → Bytes
unfolding basename_for_path is_prefix
bsd_name_for_disk_key key =
    let bsd = basename_for_path key in if is_prefix (codes "disk:") bsd then drop 5 bsd else bsd

unfoldable pub all_digits : Bytes → Bool
all_digits [] = true
all_digits (c ∷ s) = if is_digit c then all_digits s else false

-- Whether all from `pos` on is digits, and there is some.
unfoldable pub is_number_suffix : Bytes → ℕ → Bool
unfolding all_digits
is_number_suffix value pos = if leb (length value) pos then false else all_digits (drop pos value)

-- find(x, from)
abbrev plus : ℕ → Option ℕ → Option ℕ
plus n none = none
plus n (some i) = some (n + i)

-- The first branch: a name that begins with "disk".
bsd_disk : Bytes → Option ℕ → Bytes
bsd_disk bsd none = bsd
bsd_disk bsd (some s) = if is_number_suffix bsd (s + 1) then take s bsd else bsd

-- The last branch: trailing digits are cut off names of four kinds.
trim_digits : Bytes → Bytes
trim_digits [] = []
trim_digits (c ∷ s) = elim (trim_digits s) [
  | d ∷ t ↦ c ∷ d ∷ t
  | [] ↦ if is_digit c then [] else c ∷ []
]

numbered_disk : Bytes → Bytes
unfolding trim_digits is_prefix
numbered_disk bsd =
    let prefix = trim_digits bsd in
    if ltb 0 (length prefix) && ltb (length prefix) (length bsd)
    then (if is_prefix (codes "sd") prefix
          || is_prefix (codes "hd") prefix
          || is_prefix (codes "vd") prefix
          || is_prefix (codes "xvd") prefix
        then prefix
        else bsd)
    else bsd

-- The middle branch: nvme0n1p2, mmcblk0p1, loop0p1.
bsd_partition : Bytes → Option ℕ → Bytes
unfolding numbered_disk is_number_suffix is_prefix
bsd_partition bsd none = numbered_disk bsd
bsd_partition bsd (some p) =
    if ltb 0 p && is_number_suffix bsd (p + 1)
    then (if is_prefix (codes "nvme") bsd
          || is_prefix (codes "mmcblk") bsd
          || is_prefix (codes "loop") bsd
        then take p bsd
        else numbered_disk bsd)
    else numbered_disk bsd

unfoldable pub physical_bsd_for_partition : Bytes → Bytes
unfolding bsd_disk bsd_partition rfind_char find_char
physical_bsd_for_partition bsd =
    if length bsd == 0
    then bsd
    else if is_prefix (codes "disk") bsd
    then bsd_disk bsd (plus 4 (find_char b's' (drop 4 bsd)))
    else bsd_partition bsd (rfind_char b'p' bsd)

unfoldable pub device_path_for_bsd : Bytes → Bytes
device_path_for_bsd [] = []
device_path_for_bsd (c ∷ bsd) = if c == b'/' then c ∷ bsd else codes "/dev/" ++ c ∷ bsd

physical_run :
    (physical_bsd_for_partition (codes "nvme0n1p2") ≡ codes "nvme0n1")
    × (physical_bsd_for_partition (codes "sda1") ≡ codes "sda")
    × (physical_bsd_for_partition (codes "disk0s2") ≡ codes "disk0")
    × (physical_bsd_for_partition (codes "dm-0") ≡ codes "dm-0")
unfolding physical_bsd_for_partition
physical_run = (refl, refl, refl, refl)
