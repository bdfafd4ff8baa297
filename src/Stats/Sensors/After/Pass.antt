-- ===== src/Stats/Sensors/After/Pass.antt =====
-- What `update` of src/stats/StatsSensors.cpp keeps, over all sources of sensors, and the sensors
-- behind `init` and any number of updates.
use istatserverlinux.Prelude.{
  ℕ, zero, suc, ◌+◌, Bool, not, ◌&&◌, List, [], ◌∷◌, ◌++◌, Option, none, some, ◌≡◌, refl,
  Option-cases, inl, inr,
}
use istatserverlinux.Prelude.Int.{ℤ, pos, ltb_ℤ, ◌-ℤ◌}
use istatserverlinux.Prelude.Outcome.{done}
use istatserverlinux.Text.{Bytes, codes}
use istatserverlinux.Stats.{Floats}
use istatserverlinux.Stats.Items.Keys.{AreKeyed}
use istatserverlinux.Stats.Sensors.{Sensors, SensorTables, sensor_key, init_qnap}
use istatserverlinux.Stats.Sensors.Files.{read_sysfs_ll, read_longlong}
use istatserverlinux.Stats.Sensors.Thermal.{
  type_of, temp_of, is_zone, with_zone, read_zone, init_sysfs_thermal, update_sysfs_thermal,
}
use istatserverlinux.Stats.Sensors.Cpufreq.{
  process_khz, update_cpus, update_policies, update_sysfs_cpufreq,
}
use istatserverlinux.Stats.Sensors.Gpu.{
  Gpus, DevfreqGpu, gpu_key, load_of, i915_key, sample_load, sample_frequency, read_load,
  update_devfreq, update_drm, drm_key, update_drms, update_i915, found, names_of,
  init_sysfs_devfreq_gpu, update_sysfs_devfreq_gpu,
}
use istatserverlinux.Stats.Sensors.Gpu.Files.{
  drm_gpu_memory_files, i915_debugfs_frequency_files, read_i915_debugfs_frequency_mhz,
}
use istatserverlinux.Stats.Sensors.Rapl.{RaplDomain, sampled, delta_uj, update_rapl, init_rapl}
use istatserverlinux.Stats.Sensors.Update.{Machine, Sources, names_in, init_sensors, update_sensors}
use istatserverlinux.Stats.Sensors.After.{
  IsAfter, at_once, and_then, either_way, process_sensor-IsAfter, init_qnap-IsAfter,
  update_qnap-IsAfter,
}
use istatserverlinux.Stats.Sensors.After.Init.{
  init_sysfs_thermal-IsAfter, init_sysfs_cpufreq-IsAfter, init_gpus-IsAfter, init_rapl-IsAfter,
  AreLists,
}

module _ (file : Bytes → Option Bytes) (f : Floats) where
  with_zone-sampled :
      (type : Option Bytes) (raw : Option ℤ) (s : Sensors) (g : Bytes → ℤ → Sensors)
      → ((t : Bytes) (r : ℤ) → IsAfter s (g t r))
      → IsAfter s (with_zone file type raw s g)
  with_zone-sampled none raw s g h = at_once s
  with_zone-sampled (some type) none s g h = at_once s
  with_zone-sampled (some type) (some raw) s g h = h type raw

  thermal-IsAfter :
      (names : List Bytes) (s : Sensors) → IsAfter s (update_sysfs_thermal file f names s)
  unfolding update_sysfs_thermal
  thermal-IsAfter [] s = at_once s
  thermal-IsAfter (name ∷ names) s =
      and_then s (read_zone file f name s) _
        (either_way s _ s (is_zone file name)
          (with_zone-sampled (type_of file name) (temp_of file name) s _
            (λ t r. process_sensor-IsAfter _ _ s))
          (at_once s))
        (thermal-IsAfter names _)

  khz-IsAfter :
      (key : Bytes) (khz : Option ℤ) (s : Sensors) → IsAfter s (process_khz file f key khz s)
  khz-IsAfter key none s = at_once s
  khz-IsAfter key (some khz) s = process_sensor-IsAfter key _ s

  cpus-IsAfter : (count cpu : ℕ) (s : Sensors) → IsAfter s (update_cpus file f count cpu s)
  unfolding update_cpus
  cpus-IsAfter zero cpu s = at_once s
  cpus-IsAfter (suc count) cpu s =
      and_then s _ _ (either_way s _ s _ (khz-IsAfter _ _ s) (at_once s))
        (cpus-IsAfter count (cpu + 1) _)

  update_policies-IsAfter :
      (count p : ℕ) (s : Sensors) → IsAfter s (update_policies file f count p s)
  unfolding update_policies
  update_policies-IsAfter zero p s = at_once s
  update_policies-IsAfter (suc count) p s =
      and_then s _ _ (either_way s _ s _ (khz-IsAfter _ _ s) (at_once s))
        (update_policies-IsAfter count (p + 1) _)

  cpufreq-IsAfter : (s : Sensors) → IsAfter s (update_sysfs_cpufreq file f s)
  unfolding update_sysfs_cpufreq
  cpufreq-IsAfter s = and_then s _ _ (cpus-IsAfter 256 0 s) (update_policies-IsAfter 128 0 _)

  sample_load-IsAfter :
      (i : ℕ) (busy total : ℤ) (gpu : DevfreqGpu) (s : Sensors)
      → IsAfter s (sample_load file f i busy total gpu s)
  unfolding sample_load
  sample_load-IsAfter i busy total gpu s =
      let busier = busy -ℤ gpu.last_busy in
      let longer = total -ℤ gpu.last_total in
      either_way s s _ (ltb_ℤ gpu.last_busy (pos 0)) (at_once s) (
        either_way s s _ (ltb_ℤ gpu.last_total (pos 0)) (at_once s) (
          either_way s _ s (not (ltb_ℤ busier (pos 0)) && ltb_ℤ (pos 0) longer)
            (process_sensor-IsAfter (gpu_key file f i (codes "load_percent"))
              (load_of file f busier longer) s)
            (at_once s)))

  sample_frequency-IsAfter :
      (i : ℕ) (hz : Option ℤ) (s : Sensors) → IsAfter s (sample_frequency file f i hz s)
  sample_frequency-IsAfter i none s = at_once s
  sample_frequency-IsAfter i (some hz) s = process_sensor-IsAfter _ _ s

  read_load-IsAfter :
      (i : ℕ) (busy total : Option ℤ) (gpu : DevfreqGpu) (s : Sensors)
      → IsAfter s (read_load file f i busy total gpu s).0
  read_load-IsAfter i (some busy) (some total) gpu s = sample_load-IsAfter i busy total gpu s
  read_load-IsAfter i (some busy) none gpu s = at_once s
  read_load-IsAfter i none total gpu s = at_once s

  devfreq-IsAfter :
      (i : ℕ) (gpus : List DevfreqGpu) (s : Sensors) → IsAfter s (update_devfreq file f i gpus s).0
  unfolding update_devfreq
  devfreq-IsAfter i [] s = at_once s
  devfreq-IsAfter i (gpu ∷ gpus) s =
      and_then s _ _
        (sample_frequency-IsAfter i (read_sysfs_ll (file (gpu.dir ++ codes "/cur_freq"))) s)
        (and_then _ _ _
          (read_load-IsAfter i (read_sysfs_ll (file (gpu.dir ++ codes "/busy_time")))
            (read_sysfs_ll (file (gpu.dir ++ codes "/total_time"))) gpu _)
          (devfreq-IsAfter (i + 1) gpus _))

  sampled-IsAfter :
      (now : ℤ) (uj : Option ℤ) (dom : RaplDomain) (s : Sensors)
      → IsAfter s (sampled file f now uj dom s)
  unfolding delta_uj
  sampled-IsAfter now none dom s = at_once s
  sampled-IsAfter now (some uj) dom s =
      either_way s s _ _ (at_once s)
        (either_way s _ s _ (process_sensor-IsAfter dom.key _ s) (at_once s))

  rapl-IsAfter :
      (now : ℤ) (rapl : List RaplDomain) (s : Sensors) → IsAfter s (update_rapl file f now rapl s).0
  unfolding update_rapl
  rapl-IsAfter now [] s = at_once s
  rapl-IsAfter now (dom ∷ rapl) s =
      and_then s _ _
        (sampled-IsAfter now (read_longlong (file (dom.path ++ codes "/energy_uj"))) dom s)
        (rapl-IsAfter now rapl _)

  module _ (scan_double : Bytes → Option ℤ) (db : SensorTables) where
    update_drm-IsAfter :
        (value : Option ℤ) (key : Option Bytes) (s : Sensors)
        → IsAfter s (update_drm file f scan_double db value key s)
    update_drm-IsAfter (some value) (some key) s = process_sensor-IsAfter key _ s
    update_drm-IsAfter (some value) none s = at_once s
    update_drm-IsAfter none key s = at_once s

    update_drms-IsAfter :
        (paths : List Bytes) (s : Sensors) → IsAfter s (update_drms file f scan_double db paths s)
    unfolding update_drms
    update_drms-IsAfter [] s = at_once s
    update_drms-IsAfter (path ∷ paths) s =
        and_then s _ _
          (update_drm-IsAfter (read_sysfs_ll (file path)) (drm_key file f scan_double db path) s)
          (update_drms-IsAfter paths _)

    update_i915-IsAfter :
        (i : ℕ) (paths : List Bytes) (s : Sensors)
        → IsAfter s (update_i915 file f scan_double db i paths s)
    unfolding update_i915
    update_i915-IsAfter i [] s = at_once s
    update_i915-IsAfter i (path ∷ paths) s =
        elim (Option-cases (read_i915_debugfs_frequency_mhz file scan_double path)) [
          | inl e ↦ rw e (update_i915-IsAfter (i + 1) paths s)
          | inr (mhz, e) ↦ rw e (
              and_then s _ _ (process_sensor-IsAfter (i915_key file f scan_double i) mhz s)
                (update_i915-IsAfter (i + 1) paths _))
        ]

    found-IsAfter :
        (dir : Bytes → Option (List Bytes)) (exists : Bytes → Bool) (s : Sensors)
        (gpus : List DevfreqGpu)
        → IsAfter s
            (found file f scan_double db dir exists (record { sensors = s; gpus = gpus })).sensors
    found-IsAfter dir exists s [] = init_gpus-IsAfter file db f scan_double dir exists s
    found-IsAfter dir exists s (gpu ∷ gpus) = at_once s

    update_gpus-IsAfter :
        (dir : Bytes → Option (List Bytes)) (exists : Bytes → Bool) (g : Gpus)
        → IsAfter g.sensors (update_sysfs_devfreq_gpu file f scan_double db dir exists g).sensors
    unfolding update_sysfs_devfreq_gpu
    update_gpus-IsAfter dir exists g =
        let drm =
          drm_gpu_memory_files file
            (names_of file f scan_double db (dir (codes "/sys/class/drm"))) in
        let i915 =
          i915_debugfs_frequency_files file exists
            (names_of file f scan_double db (dir (codes "/sys/kernel/debug/dri"))) in
        let start = found file f scan_double db dir exists g in
        and_then g.sensors start.sensors _ (found-IsAfter dir exists g.sensors g.gpus) (
          and_then start.sensors _ _ (devfreq-IsAfter 0 start.gpus start.sensors)
            (and_then _ _ _ (update_drms-IsAfter drm _) (update_i915-IsAfter 0 i915 _)))

-- One update: the sensors keep the number and the time of the sample, and no key comes twice.
pub update_sensors-IsAfter :
    (m : Machine) (f : Floats) (db : SensorTables) (s : Sources)
    → IsAfter s.gpus.sensors (update_sensors m f db s).gpus.sensors
unfolding update_sensors
update_sensors-IsAfter m f db s =
    and_then s.gpus.sensors _ _ (update_qnap-IsAfter f m.qnap s.gpus.sensors) (
      and_then _ _ _ (thermal-IsAfter m.file f (names_in (m.dir (codes "/sys/class/thermal"))) _) (
        and_then _ _ _ (cpufreq-IsAfter m.file f _) (
          and_then _ _ _
            (update_gpus-IsAfter m.file f m.scan_double db m.dir m.exists
              (record (s.gpus) { sensors = _ }))
            (rapl-IsAfter m.file f m.now s.rapl _))))

-- The updates on what the system gives at each of them.
abbrev pub update_all : Floats → SensorTables → List Machine → Sources → Sources
update_all f db [] s = s
update_all f db (m ∷ machines) s = update_all f db machines (update_sensors m f db s)

update_all-IsAfter :
    (f : Floats) (db : SensorTables) (machines : List Machine) (s : Sources)
    → IsAfter s.gpus.sensors (update_all f db machines s).gpus.sensors
update_all-IsAfter f db [] s = at_once s.gpus.sensors
update_all-IsAfter f db (m ∷ machines) s =
    and_then s.gpus.sensors _ _ (update_sensors-IsAfter m f db s)
      (update_all-IsAfter f db machines (update_sensors m f db s))

-- Where each related_cpus is read to its end within the fuel, `init` from no sensors comes to an end,
-- and no two sensors have the same key after it and any number of updates, whatever the system gives
-- at them: thermal zones, frequencies, graphics processors found late and power domains.
pub init_sensors-AreKeyed :
    (m : Machine) (f : Floats) (db : SensorTables) (fuel : ℕ) (machines : List Machine)
    (s : Sensors)
    → AreLists m.file db fuel
    → s.items ≡ []
    → (t : Sources) × (init_sensors m f db fuel s ≡ done t)
      × AreKeyed sensor_key (update_all f db machines t).gpus.sensors.items
unfolding init_sensors
init_sensors-AreKeyed m f db fuel machines s h none_yet =
    let first =
      init_sysfs_thermal m.file db (m.dir (codes "/sys/class/thermal")) (init_qnap db m.qnap s) in
    let (second, made, after) =
      init_sysfs_cpufreq-IsAfter m.file db fuel (m.dir (codes "/sys/devices/system/cpu")) first h in
    let g = init_sysfs_devfreq_gpu m.file f m.scan_double db m.dir m.exists second in
    let last =
      init_rapl m.file f db m.is_dir (names_in (m.dir (codes "/sys/class/powercap")))
        (g.sensors, []) in
    let t : Sources = record { gpus = record g { sensors = last.0 }; rapl = last.1 } in
    let start : AreKeyed sensor_key s.items = rw none_yet tt in
    let all = and_then s _ _ (init_qnap-IsAfter db m.qnap s) (
      and_then _ first _
        (init_sysfs_thermal-IsAfter m.file db (m.dir (codes "/sys/class/thermal")) _)
        (and_then first second _ after (
          and_then second g.sensors _
            (init_gpus-IsAfter m.file db f m.scan_double m.dir m.exists second)
            (and_then g.sensors last.0 _
              (init_rapl-IsAfter m.file db f m.is_dir
                (names_in (m.dir (codes "/sys/class/powercap"))) g.sensors [])
              (update_all-IsAfter f db machines t))))) in
    (t, rw made refl, all.keyed start)
