-- ===== src/Stats/Sensors/After/Init.antt =====
-- What `init` of src/stats/StatsSensors.cpp keeps, over all sources of sensors.
use istatserverlinux.Prelude.{
  ℕ, zero, suc, ◌+◌, Bool, true, false, ◌&&◌, List, [], ◌∷◌, ◌++◌, Option, none, some, ◌≡◌, refl,
  if-cases, Bool-cases, Option-cases, inl, inr,
}
use istatserverlinux.Prelude.Int.{ℤ}
use istatserverlinux.Prelude.Outcome.{done}
use istatserverlinux.Text.{Bytes, codes, find, is_prefix}
use istatserverlinux.Stats.{Floats}
use istatserverlinux.Stats.Sensors.{Sensors, SensorTables, set_meta, create_sensor}
use istatserverlinux.Stats.Sensors.Thermal.{
  type_of, temp_of, is_zone, with_zone, zone_key, add_zone, zone_round, add_zones,
  init_sysfs_thermal,
}
use istatserverlinux.Stats.Sensors.Cpufreq.{
  can_read, related_cpus, policy_path, add_cpu, add_cpus, policy_sensors, init_cpus, fallback,
  init_policies, init_sysfs_cpufreq,
}
use istatserverlinux.Stats.Sensors.Gpu.{
  Gpus, DevfreqGpu, gpu_key, new_gpu, add_gpu, is_in, names_of, add_load, add_drm, init_devfreq,
  init_drm, init_i915, init_sysfs_devfreq_gpu,
}
use istatserverlinux.Stats.Sensors.Gpu.Files.{
  is_numeric, list_gpu_devfreq_dirs, drm_gpu_memory_files, i915_debugfs_frequency_files,
  read_i915_debugfs_frequency_mhz,
}
use istatserverlinux.Stats.Sensors.Files.{read_longlong}
use istatserverlinux.Stats.Sensors.Rapl.{RaplDomain, domain_of, add_domain, add_entry, init_rapl}
use istatserverlinux.Stats.Sensors.After.{
  IsAfter, at_once, and_then, either_way, change_first-IsAfter, create_sensor-IsAfter,
  add_sensor-IsAfter, process_sensor-IsAfter,
}

module _ (file : Bytes → Option Bytes) (db : SensorTables) where
  -- Each related_cpus is read to its end.
  abbrev pub AreLists : ℕ → Type 0
  AreLists fuel = (p : ℕ) → (cpus : List ℤ) × (related_cpus file db fuel p ≡ done cpus)

  add_zone-IsAfter :
      (name type label : Bytes) (s : Sensors) → IsAfter s (add_zone file db name type label s)
  unfolding add_zone
  add_zone-IsAfter name type label s =
      let (t, created) = create_sensor db (zone_key file name type) s in
      let made = create_sensor-IsAfter db (zone_key file name type) s in
      either_way s _ t created
        (and_then s t _ made
          (change_first-IsAfter (set_meta 10 0 label) (λ a. refl) t (zone_key file name type)))
        made

  with_zone-IsAfter :
      (type : Option Bytes) (raw : Option ℤ) (seen : List Bytes) (s : Sensors)
      (f : Bytes → ℤ → List Bytes × Sensors)
      → ((t : Bytes) (r : ℤ) → IsAfter s (f t r).1)
      → IsAfter s (with_zone file type raw (seen, s) f).1
  with_zone-IsAfter none raw seen s f h = at_once s
  with_zone-IsAfter (some type) none seen s f h = at_once s
  with_zone-IsAfter (some type) (some raw) seen s f h = h type raw

  zone_round-IsAfter :
      (all : List Bytes) (name : Bytes) (seen : List Bytes) (s : Sensors)
      → IsAfter s (zone_round file db all name seen s).1
  zone_round-IsAfter all name seen s =
      if-cases (λ (r : List Bytes × Sensors). IsAfter s r.1) (is_zone file name) _ _
        (λ e.
          with_zone-IsAfter (type_of file name) (temp_of file name) seen s _
            (λ t r. add_zone-IsAfter name t _ s))
        (λ e. at_once s)

  add_zones-IsAfter :
      (all names seen : List Bytes) (s : Sensors) → IsAfter s (add_zones file db all names seen s)
  unfolding add_zones
  add_zones-IsAfter all [] seen s = at_once s
  add_zones-IsAfter all (name ∷ names) seen s =
      and_then s _ _ (zone_round-IsAfter all name seen s) (add_zones-IsAfter all names _ _)

  add_cpu-IsAfter : (cpu : ℤ) (s : Sensors) → IsAfter s (add_cpu file db cpu s)
  unfolding add_cpu
  add_cpu-IsAfter cpu s = add_sensor-IsAfter db _ 11 8 _ s

  add_cpus-IsAfter : (cpus : List ℤ) (s : Sensors) → IsAfter s (add_cpus file db cpus s)
  unfolding add_cpus
  add_cpus-IsAfter [] s = at_once s
  add_cpus-IsAfter (cpu ∷ cpus) s =
      and_then s (add_cpu file db cpu s) _ (add_cpu-IsAfter cpu s) (add_cpus-IsAfter cpus _)

  policy_sensors-IsAfter :
      (p : ℕ) (cpus : List ℤ) (s : Sensors) → IsAfter s (policy_sensors file db p cpus s)
  policy_sensors-IsAfter p [] s = add_sensor-IsAfter db _ 11 8 _ s
  policy_sensors-IsAfter p (cpu ∷ cpus) s = add_cpus-IsAfter (cpu ∷ cpus) s

  init_cpus-IsAfter : (names : List Bytes) (s : Sensors) → IsAfter s (init_cpus file db names s)
  unfolding init_cpus
  init_cpus-IsAfter [] s = at_once s
  init_cpus-IsAfter (name ∷ names) s =
      and_then s _ _ (either_way s _ s _ (add_cpu-IsAfter _ s) (at_once s))
        (init_cpus-IsAfter names _)

  policies-IsAfter :
      (fuel count p : ℕ) (any : Bool) (s : Sensors)
      → AreLists fuel
      → (r : Bool × Sensors) × (init_policies file db fuel count p any s ≡ done r) × IsAfter s r.1
  unfolding init_policies
  policies-IsAfter fuel zero p any s h = ((any, s), refl, at_once s)
  policies-IsAfter fuel (suc count) p any s h =
      elim (Bool-cases (can_read file (policy_path file p (codes "scaling_cur_freq")))) [
        | inl e ↦
            let (cpus, parsed) = h p in
            let t = policy_sensors file db p cpus s in
            let (r, made, after) = policies-IsAfter fuel count (p + 1) true t h in
            (
              r,
              rw (e, init_policies, parsed) made,
              and_then s t r.1 (policy_sensors-IsAfter p cpus s) after,
            )
        | inr e ↦
            let (r, made, after) = policies-IsAfter fuel count (p + 1) any s h in
            (r, rw (e, init_policies) made, after)
      ]

  fallback-IsAfter :
      (names : Option (List Bytes)) (any : Bool) (s : Sensors)
      → IsAfter s (fallback file db names (any, s))
  fallback-IsAfter names true s = at_once s
  fallback-IsAfter none false s = at_once s
  fallback-IsAfter (some names) false s = init_cpus-IsAfter names s

  pub init_sysfs_cpufreq-IsAfter :
      (fuel : ℕ) (names : Option (List Bytes)) (s : Sensors)
      → AreLists fuel
      → (t : Sensors) × (init_sysfs_cpufreq file db fuel names s ≡ done t) × IsAfter s t
  unfolding init_sysfs_cpufreq
  init_sysfs_cpufreq-IsAfter fuel names s h =
      let (r, made, after) = policies-IsAfter fuel 128 0 false s h in
      (
        fallback file db names r,
        rw made refl,
        and_then s r.1 _ after (fallback-IsAfter names r.0 r.1),
      )

  pub init_sysfs_thermal-IsAfter :
      (names : Option (List Bytes)) (s : Sensors) → IsAfter s (init_sysfs_thermal file db names s)
  unfolding init_sysfs_thermal
  init_sysfs_thermal-IsAfter none s = at_once s
  init_sysfs_thermal-IsAfter (some names) s = add_zones-IsAfter names names [] s

  module _ (f : Floats) (scan_double : Bytes → Option ℤ) where
    add_load-IsAfter :
        (i : ℕ) (dir : Bytes) (gpu : DevfreqGpu) (s : Sensors)
        → IsAfter s (add_load file f scan_double db i dir gpu s)
    add_load-IsAfter i dir gpu s = either_way s _ s _ (add_sensor-IsAfter db _ 14 6 _ s) (at_once s)

    add_gpu-IsAfter :
        (i : ℕ) (dir : Bytes) (gpu : DevfreqGpu) (g : Gpus)
        → IsAfter g.sensors (add_gpu file f scan_double db i dir gpu g).sensors
    add_gpu-IsAfter i dir gpu g =
        and_then g.sensors _ _
          (add_sensor-IsAfter db (gpu_key file f i (codes "freq")) 12 8
            (gpu.name ++ codes " Frequency") g.sensors)
          (add_load-IsAfter i dir gpu _)

    init_devfreq-IsAfter :
        (i : ℕ) (dirs : List Bytes) (g : Gpus)
        → IsAfter g.sensors (init_devfreq file f scan_double db i dirs g).sensors
    unfolding init_devfreq
    init_devfreq-IsAfter i [] g = at_once g.sensors
    init_devfreq-IsAfter i (dir ∷ dirs) g =
        and_then g.sensors _ _
          (if-cases (λ (h : Gpus). IsAfter g.sensors h.sensors)
            (is_numeric file (dir ++ codes "/cur_freq")) _ _
            (λ e. add_gpu-IsAfter i dir (new_gpu file f scan_double db dir i) g)
            (λ e. at_once g.sensors))
          (init_devfreq-IsAfter (i + 1) dirs _)

    add_drm-IsAfter :
        (path : Bytes) (s : Sensors) → IsAfter s (add_drm file f scan_double db path s)
    add_drm-IsAfter path s =
        let holds = λ (what : Bytes). is_in file f scan_double db path (find what path) in
        let added =
          λ (key : Bytes) (kind : ℕ) (label : Bytes). add_sensor-IsAfter db key 15 kind label s in
        either_way s _ _ (holds (codes "gpu_busy_percent"))
          (added (codes "gpu_drm_load_percent") 6 (codes "GPU Load"))
          (either_way s _ _ (holds (codes "mem_info_vram_used"))
            (added (codes "gpu_memory_used_bytes") 7 (codes "GPU Memory Used"))
            (either_way s _ s (holds (codes "mem_info_gtt_used"))
              (added (codes "gpu_gtt_memory_used_bytes") 7 (codes "GPU GTT Memory Used"))
              (at_once s)))

    init_drm-IsAfter :
        (paths : List Bytes) (s : Sensors) → IsAfter s (init_drm file f scan_double db paths s)
    unfolding init_drm
    init_drm-IsAfter [] s = at_once s
    init_drm-IsAfter (path ∷ paths) s =
        and_then s _ _ (add_drm-IsAfter path s) (init_drm-IsAfter paths _)

    init_i915-IsAfter :
        (i : ℕ) (paths : List Bytes) (s : Sensors)
        → IsAfter s (init_i915 file f scan_double db i paths s)
    unfolding init_i915
    init_i915-IsAfter i [] s = at_once s
    init_i915-IsAfter i (path ∷ paths) s =
        elim (Option-cases (read_i915_debugfs_frequency_mhz file scan_double path)) [
          | inl e ↦ rw e (init_i915-IsAfter (i + 1) paths s)
          | inr (mhz, e) ↦ rw e (
              and_then s _ _ (add_sensor-IsAfter db _ 16 8 _ s) (init_i915-IsAfter (i + 1) paths _))
        ]

    pub init_gpus-IsAfter :
        (dir : Bytes → Option (List Bytes)) (exists : Bytes → Bool) (s : Sensors)
        → IsAfter s (init_sysfs_devfreq_gpu file f scan_double db dir exists s).sensors
    unfolding init_sysfs_devfreq_gpu
    init_gpus-IsAfter dir exists s =
        let dirs = list_gpu_devfreq_dirs file (dir (codes "/sys/class/devfreq")) in
        let drm =
          drm_gpu_memory_files file
            (names_of file f scan_double db (dir (codes "/sys/class/drm"))) in
        let i915 =
          i915_debugfs_frequency_files file exists
            (names_of file f scan_double db (dir (codes "/sys/kernel/debug/dri"))) in
        and_then s _ _ (init_devfreq-IsAfter 0 dirs (record { sensors = s; gpus = [] }))
          (and_then _ _ _ (init_drm-IsAfter drm _) (init_i915-IsAfter 0 i915 _))

  module _ (f : Floats) where
    add_domain-IsAfter :
        (probe : Option ℤ) (dom : RaplDomain) (s : Sensors) (rapl : List RaplDomain)
        → IsAfter s (add_domain file f db probe dom (s, rapl)).0
    add_domain-IsAfter none dom s rapl = at_once s
    add_domain-IsAfter (some probe) dom s rapl =
        and_then s _ _ (add_sensor-IsAfter db _ 13 5 _ s) (process_sensor-IsAfter _ _ _)

    add_entry-IsAfter :
        (is_dir : Bytes → Bool) (entry : Bytes) (s : Sensors) (rapl : List RaplDomain)
        → IsAfter s (add_entry file f db is_dir entry (s, rapl)).0
    add_entry-IsAfter is_dir entry s rapl =
        let dir = codes "/sys/class/powercap/" ++ entry in
        if-cases (λ (r : Sensors × List RaplDomain). IsAfter s r.0)
          (is_prefix (codes "intel-rapl:") entry && is_dir dir)
          (add_domain file f db (read_longlong (file (dir ++ codes "/energy_uj")))
            (domain_of file f dir entry) (s, rapl))
          (s, rapl) (λ e. add_domain-IsAfter _ _ s rapl) (λ e. at_once s)

    pub init_rapl-IsAfter :
        (is_dir : Bytes → Bool) (entries : List Bytes) (s : Sensors) (rapl : List RaplDomain)
        → IsAfter s (init_rapl file f db is_dir entries (s, rapl)).0
    unfolding init_rapl
    init_rapl-IsAfter is_dir [] s rapl = at_once s
    init_rapl-IsAfter is_dir (entry ∷ entries) s rapl =
        and_then s _ _ (add_entry-IsAfter is_dir entry s rapl)
          (init_rapl-IsAfter is_dir entries _ _)
