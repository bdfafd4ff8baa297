-- ===== src/Stats/Sensors/Gpu/Files.antt =====
-- The files of the graphics processors that src/stats/StatsSensors.cpp looks for.
use istatserverlinux.Prelude.{
  ℕ, Bool, true, false, not, ◌&&◌, List, [], ◌∷◌, ◌++◌, Option, none, some, ◌==◌, if◌then◌else◌,
  length, get_or, drop,
}
use istatserverlinux.Prelude.Int.{ℤ}
use istatserverlinux.Text.{Bytes, codes, str_eq, is_prefix}
use istatserverlinux.Text.Number.{show}
use istatserverlinux.Text.Scan.{fgets_lines}
use istatserverlinux.Stats.Sensors.Files.{read_sysfs_ll, read_sysfs_string}

module _ (file : Bytes → Option Bytes) where
  abbrev pub is_number : Option ℤ → Bool
  is_number none = false
  is_number (some n) = true

  abbrev pub is_numeric : Bytes → Bool
  is_numeric path = is_number (read_sysfs_ll (file path))

  abbrev devfreq : Bytes
  devfreq = codes "/sys/class/devfreq/"

  abbrev contains : Bytes → List Bytes → Bool
  contains dir [] = false
  contains dir (known ∷ dirs) = if str_eq known dir then true else contains dir dirs

  abbrev add_dir : Bytes → List Bytes → List Bytes
  add_dir dir dirs =
      if is_numeric (dir ++ codes "/cur_freq") && not (contains dir dirs)
      then dirs ++ dir ∷ []
      else dirs

  abbrev is_hidden : Bytes → Bool
  is_hidden name = get_or name 0 0 == b'.'

  -- readdir over /sys/class/devfreq
  unfoldable pub add_dirs : List Bytes → List Bytes → List Bytes
  unfolding read_sysfs_ll str_eq
  add_dirs [] dirs = dirs
  add_dirs (name ∷ names) dirs =
      add_dirs names (if is_hidden name then dirs else add_dir (devfreq ++ name) dirs)

  unfoldable pub list_gpu_devfreq_dirs : Option (List Bytes) → List Bytes
  unfolding add_dirs
  list_gpu_devfreq_dirs names =
      let dirs = add_dir (devfreq ++ codes "ffe40000.gpu") [] in
      elim names [ none ↦ dirs | some names ↦ add_dirs names dirs ]

  -- Both branches on the directory's name are the same in the source.
  unfoldable pub devfreq_gpu_label : Bytes → ℕ → Bytes
  unfolding read_sysfs_string
  devfreq_gpu_label dir index =
      let numbered = if index == 0 then codes "GPU" else codes "GPU " ++ show index in
      elim (read_sysfs_string (file (dir ++ codes "/name"))) [
        | none ↦ numbered
        | some name ↦ if length name == 0 then numbered else name ++ codes " GPU"
      ]

  abbrev readable_files : Bytes → List Bytes → List Bytes
  readable_files dir [] = []
  readable_files dir (name ∷ names) =
      if is_numeric (dir ++ (b'/' ∷ name))
      then (dir ++ (b'/' ∷ name)) ∷ readable_files dir names
      else readable_files dir names

  unfoldable pub drm_gpu_memory_files : List Bytes → List Bytes
  unfolding is_prefix read_sysfs_ll
  drm_gpu_memory_files [] = []
  drm_gpu_memory_files (name ∷ names) =
      let rest = drm_gpu_memory_files names in
      if is_prefix (codes "card") name
      then readable_files (codes "/sys/class/drm/" ++ (name ++ codes "/device"))
          (codes "mem_info_vram_used" ∷ codes "mem_info_gtt_used" ∷ codes "gpu_busy_percent" ∷ [])
        ++ rest
      else rest

  -- `exists` is stat.
  unfoldable pub i915_debugfs_frequency_files : (Bytes → Bool) → List Bytes → List Bytes
  i915_debugfs_frequency_files exists [] = []
  i915_debugfs_frequency_files exists (name ∷ names) =
      let path = codes "/sys/kernel/debug/dri/" ++ (name ++ codes "/gt0/frequency") in
      let rest = i915_debugfs_frequency_files exists names in
      if not (is_hidden name) && exists path then path ∷ rest else rest

  module _ (scan_double : Bytes → Option ℤ) where
    -- sscanf(line, "CAGF: %lfMHz", &value)
    abbrev frequency_of : Bytes → Option ℤ
    frequency_of line = if is_prefix (codes "CAGF:") line then scan_double (drop 5 line) else none

    abbrev first_frequency : List Bytes → Option ℤ
    first_frequency [] = none
    first_frequency (line ∷ lines) = elim (frequency_of line) [
      | none ↦ first_frequency lines
      | some mhz ↦ some mhz
    ]

    unfoldable pub read_i915_debugfs_frequency_mhz : Bytes → Option ℤ
    unfolding fgets_lines is_prefix
    read_i915_debugfs_frequency_mhz path = elim (file path) [
      | none ↦ none
      | some text ↦ first_frequency (fgets_lines 256 text)
    ]
