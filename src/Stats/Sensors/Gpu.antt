-- ===== src/Stats/Sensors/Gpu.antt =====
-- The graphics processors in src/stats/StatsSensors.cpp: those of /sys/class/devfreq with their load,
-- the memory of /sys/class/drm, and the frequency of /sys/kernel/debug/dri. A directory that cannot
-- be opened is `none`, as is a file; the first word of a text as a double is a parameter.
pub mod Files
use istatserverlinux.Prelude.{
  ℕ, zero, suc, ◌+◌, Bool, true, false, not, ◌&&◌, List, [], ◌∷◌, ◌++◌, Option, none, some, ◌==◌,
  if◌then◌else◌, length, get_or, drop,
}
use istatserverlinux.Prelude.Int.{ℤ, pos, negsuc, ltb_ℤ, ◌-ℤ◌}
use istatserverlinux.Text.{Bytes, codes, str_eq, is_prefix, find}
use istatserverlinux.Text.Number.{show}
use istatserverlinux.Text.Scan.{fgets_lines}
use istatserverlinux.Stats.{Floats}
use istatserverlinux.Stats.Sensors.{Sensors, SensorTables, add_sensor, process_sensor}
use istatserverlinux.Stats.Sensors.Files.{read_sysfs_ll, read_sysfs_string}
use Files.{
  is_numeric, list_gpu_devfreq_dirs, devfreq_gpu_label, drm_gpu_memory_files,
  i915_debugfs_frequency_files, read_i915_debugfs_frequency_mhz,
}

pub record DevfreqGpu : Type 0 where
  pub dir : Bytes
  pub name : Bytes
  pub last_busy : ℤ
  pub last_total : ℤ

-- The sensors with the processors of devfreqGpu_.
pub record Gpus : Type 0 where
  pub sensors : Sensors
  pub gpus : List DevfreqGpu

module _ (file : Bytes → Option Bytes) (f : Floats) where
  -- The keys of the graphics processor number i; the first one has no number.
  abbrev pub gpu_key : ℕ → Bytes → Bytes
  gpu_key i what = codes "gpu" ++ ((if i == 0 then [] else show i) ++ (b'_' ∷ what))

  abbrev within : ℤ → ℤ
  within pct =
      if ltb_ℤ pct (pos 0)
      then pos 0
      else if ltb_ℤ (pos 100_000_000) pct
      then pos 100_000_000
      else pct

  abbrev pub load_of : ℤ → ℤ → ℤ
  load_of busy total = within (f.mul (f.div (f.of_ll busy) (f.of_ll total)) (pos 100_000_000))

  -- The load since the last reading: -1 stands for none, and counters that fell give none.
  unfoldable pub sample_load : ℕ → ℤ → ℤ → DevfreqGpu → Sensors → Sensors
  unfolding process_sensor
  sample_load i busy total gpu s =
      if ltb_ℤ gpu.last_busy (pos 0)
      then s
      else if ltb_ℤ gpu.last_total (pos 0)
      then s
      else if not (ltb_ℤ (busy -ℤ gpu.last_busy) (pos 0)) && ltb_ℤ (pos 0) (total -ℤ gpu.last_total)
      then process_sensor (gpu_key i (codes "load_percent"))
          (load_of (busy -ℤ gpu.last_busy) (total -ℤ gpu.last_total)) s
      else s

  abbrev pub sample_frequency : ℕ → Option ℤ → Sensors → Sensors
  sample_frequency i none s = s
  sample_frequency i (some hz) s =
      process_sensor (gpu_key i (codes "freq")) (f.div (f.of_ll hz) (pos 1_000_000_000_000)) s

  abbrev pub read_load : ℕ → Option ℤ → Option ℤ → DevfreqGpu → Sensors → Sensors × DevfreqGpu
  read_load i (some busy) (some total) gpu s =
      (sample_load i busy total gpu s, record gpu { last_busy = busy; last_total = total })
  read_load i (some busy) none gpu s = (s, gpu)
  read_load i none total gpu s = (s, gpu)

  -- The loop over devfreqGpu_, from number i on.
  unfoldable pub update_devfreq : ℕ → List DevfreqGpu → Sensors → Sensors × List DevfreqGpu
  unfolding read_sysfs_ll process_sensor sample_load
  update_devfreq i [] s = (s, [])
  update_devfreq i (gpu ∷ rest) s =
      let (t, read) =
        read_load i (read_sysfs_ll (file (gpu.dir ++ codes "/busy_time")))
          (read_sysfs_ll (file (gpu.dir ++ codes "/total_time"))) gpu
          (sample_frequency i (read_sysfs_ll (file (gpu.dir ++ codes "/cur_freq"))) s) in
      let (u, others) = update_devfreq (i + 1) rest t in (u, read ∷ others)

  module _ (scan_double : Bytes → Option ℤ) where
    abbrev pub i915_key : ℕ → Bytes
    i915_key i =
        if i == 0 then codes "gpu_i915_freq" else codes "gpu_i915_" ++ (show i ++ codes "_freq")

    module _ (db : SensorTables) where
      abbrev pub add_load : ℕ → Bytes → DevfreqGpu → Sensors → Sensors
      add_load i dir gpu s =
          if is_numeric file (dir ++ codes "/busy_time")
            && is_numeric file (dir ++ codes "/total_time")
          then add_sensor db (gpu_key i (codes "load_percent")) 14 6 (gpu.name ++ codes " Load") s
          else s

      abbrev pub new_gpu : Bytes → ℕ → DevfreqGpu
      new_gpu dir i = record {
        dir = dir;
        name = devfreq_gpu_label file dir i;
        last_busy = negsuc 0;
        last_total = negsuc 0;
      }

      abbrev pub add_gpu : ℕ → Bytes → DevfreqGpu → Gpus → Gpus
      add_gpu i dir gpu g = record {
        sensors = add_load i dir gpu (
            add_sensor db (gpu_key i (codes "freq")) 12 8 (gpu.name ++ codes " Frequency")
              g.sensors);
        gpus = g.gpus ++ gpu ∷ [];
      }

      -- The loop over the directories, from number i on.
      unfoldable pub init_devfreq : ℕ → List Bytes → Gpus → Gpus
      unfolding read_sysfs_ll devfreq_gpu_label add_sensor
      init_devfreq i [] g = g
      init_devfreq i (dir ∷ dirs) g = init_devfreq (i + 1) dirs (
          if is_numeric file (dir ++ codes "/cur_freq") then add_gpu i dir (new_gpu dir i) g else g)

      abbrev pub is_in : Bytes → Option ℕ → Bool
      is_in path none = false
      is_in path (some i) = true

      -- What the name of a file of drm says it holds.
      abbrev pub drm_key : Bytes → Option Bytes
      drm_key path =
          if is_in path (find (codes "gpu_busy_percent") path)
          then some (codes "gpu_drm_load_percent")
          else if is_in path (find (codes "mem_info_vram_used") path)
          then some (codes "gpu_memory_used_bytes")
          else if is_in path (find (codes "mem_info_gtt_used") path)
          then some (codes "gpu_gtt_memory_used_bytes")
          else none

      abbrev pub add_drm : Bytes → Sensors → Sensors
      add_drm path s =
          if is_in path (find (codes "gpu_busy_percent") path)
          then add_sensor db (codes "gpu_drm_load_percent") 15 6 (codes "GPU Load") s
          else if is_in path (find (codes "mem_info_vram_used") path)
          then add_sensor db (codes "gpu_memory_used_bytes") 15 7 (codes "GPU Memory Used") s
          else if is_in path (find (codes "mem_info_gtt_used") path)
          then add_sensor db (codes "gpu_gtt_memory_used_bytes") 15 7 (codes "GPU GTT Memory Used")
              s
          else s

      unfoldable pub init_drm : List Bytes → Sensors → Sensors
      unfolding find add_sensor
      init_drm [] s = s
      init_drm (path ∷ paths) s = init_drm paths (add_drm path s)

      unfoldable pub init_i915 : ℕ → List Bytes → Sensors → Sensors
      unfolding read_i915_debugfs_frequency_mhz add_sensor
      init_i915 i [] s = s
      init_i915 i (path ∷ paths) s =
          init_i915 (i + 1) paths (elim (read_i915_debugfs_frequency_mhz file scan_double path) [
            | none ↦ s
            | some mhz ↦
                add_sensor db (i915_key i) 16 8
                  (if i == 0
                    then codes "GPU Frequency"
                    else codes "GPU " ++ (show i ++ codes " Frequency"))
                  s
          ])

      abbrev pub names_of : Option (List Bytes) → List Bytes
      names_of none = []
      names_of (some names) = names

      -- `dir` lists a directory.
      unfoldable pub init_sysfs_devfreq_gpu :
          (Bytes → Option (List Bytes)) → (Bytes → Bool) → Sensors → Gpus
      unfolding list_gpu_devfreq_dirs init_devfreq drm_gpu_memory_files init_drm
          i915_debugfs_frequency_files init_i915
      init_sysfs_devfreq_gpu dir exists s =
          let g =
            init_devfreq 0 (list_gpu_devfreq_dirs file (dir (codes "/sys/class/devfreq")))
              (record { sensors = s; gpus = [] }) in
          record g {
            sensors =
                init_i915 0
                  (i915_debugfs_frequency_files file exists
                    (names_of (dir (codes "/sys/kernel/debug/dri"))))
                  (init_drm (drm_gpu_memory_files file (names_of (dir (codes "/sys/class/drm"))))
                    g.sensors);
          }

      abbrev pub update_drm : Option ℤ → Option Bytes → Sensors → Sensors
      update_drm (some value) (some key) s = process_sensor key (f.of_ll value) s
      update_drm _ _ s = s

      unfoldable pub update_drms : List Bytes → Sensors → Sensors
      unfolding find read_sysfs_ll process_sensor
      update_drms [] s = s
      update_drms (path ∷ paths) s =
          update_drms paths (update_drm (read_sysfs_ll (file path)) (drm_key path) s)

      unfoldable pub update_i915 : ℕ → List Bytes → Sensors → Sensors
      unfolding read_i915_debugfs_frequency_mhz process_sensor
      update_i915 i [] s = s
      update_i915 i (path ∷ paths) s =
          update_i915 (i + 1) paths (elim (read_i915_debugfs_frequency_mhz file scan_double path) [
            | none ↦ s
            | some mhz ↦ process_sensor (i915_key i) mhz s
          ])

      abbrev pub found : (Bytes → Option (List Bytes)) → (Bytes → Bool) → Gpus → Gpus
      found dir exists g = elim g.gpus [
        | [] ↦ init_sysfs_devfreq_gpu dir exists g.sensors
        | gpu ∷ gpus ↦ g
      ]

      -- With no processor known they are looked for again.
      unfoldable pub update_sysfs_devfreq_gpu :
          (Bytes → Option (List Bytes)) → (Bytes → Bool) → Gpus → Gpus
      unfolding init_sysfs_devfreq_gpu update_devfreq update_drms update_i915
      update_sysfs_devfreq_gpu dir exists old =
          let g = found dir exists old in
          let (s, gpus) = update_devfreq 0 g.gpus g.sensors in
          record {
            sensors =
                update_i915 0
                  (i915_debugfs_frequency_files file exists
                    (names_of (dir (codes "/sys/kernel/debug/dri"))))
                  (update_drms (drm_gpu_memory_files file (names_of (dir (codes "/sys/class/drm"))))
                    s);
            gpus = gpus;
          }
