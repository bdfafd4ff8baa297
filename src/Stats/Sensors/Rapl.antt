-- ===== src/Stats/Sensors/Rapl.antt =====
-- The power domains of /sys/class/powercap in src/stats/StatsSensors.cpp.
pub mod Energy
use istatserverlinux.Prelude.{
  ℕ, zero, suc, ◌+◌, Bool, true, false, not, ◌&&◌, List, [], ◌∷◌, ◌++◌, Option, none, some, ◌==◌,
  if◌then◌else◌, length,
}
use istatserverlinux.Prelude.Int.{ℤ, pos, negsuc, ltb_ℤ, ◌+ℤ◌, ◌-ℤ◌}
use istatserverlinux.Text.{Bytes, codes, is_prefix}
use istatserverlinux.Text.Number.{show}
use istatserverlinux.Stats.{Floats}
use istatserverlinux.Stats.Sensors.{Sensors, SensorTables, add_sensor, process_sensor}
use istatserverlinux.Stats.Sensors.Files.{read_longlong, read_string, read_sysfs_ll}

pub record RaplDomain : Type 0 where
  pub path : Bytes
  pub name : Bytes
  pub key : Bytes
  pub wrap_uj : ℤ
  pub last_uj : ℤ
  pub last_time : ℤ

abbrev or_else {ℓ} : {A : Type ℓ} → Option A → A → A
or_else none other = other
or_else (some a) other = a

-- The energy since the last reading; the counter begins anew behind wrap_uj.
unfoldable pub delta_uj : ℤ → ℤ → ℤ → ℤ
delta_uj wrap last uj =
    let delta = uj -ℤ last in
    if ltb_ℤ delta (pos 0) && ltb_ℤ (pos 0) wrap then delta +ℤ wrap else delta

module _ (file : Bytes → Option Bytes) (f : Floats) where
  abbrev pub domain_of : Bytes → Bytes → RaplDomain
  domain_of dir entry =
      let name = or_else (read_string (file (dir ++ codes "/name"))) entry in
      record {
        path = dir;
        name = name;
        key = codes "rapl:" ++ name;
        wrap_uj = or_else (read_longlong (file (dir ++ codes "/max_energy_range_uj"))) (pos 0);
        last_uj = negsuc 0;
        last_time = pos 0;
      }

  -- A domain whose counter cannot be read is left out.
  abbrev pub add_domain :
      SensorTables → Option ℤ → RaplDomain → Sensors × List RaplDomain → Sensors × List RaplDomain
  add_domain db none dom (s, rapl) = (s, rapl)
  add_domain db (some probe) dom (s, rapl) = (
    process_sensor dom.key (pos 0)
        (add_sensor db dom.key 13 5 (codes "CPU " ++ (dom.name ++ codes " Power")) s),
    rapl ++ dom ∷ [],
  )

  -- One entry of the directory; `is_dir` tells a directory.
  abbrev pub add_entry :
      SensorTables → (Bytes → Bool) → Bytes → Sensors × List RaplDomain → Sensors × List RaplDomain
  add_entry db is_dir entry state =
      let dir = codes "/sys/class/powercap/" ++ entry in
      if is_prefix (codes "intel-rapl:") entry && is_dir dir
      then add_domain db (read_longlong (file (dir ++ codes "/energy_uj"))) (domain_of dir entry)
          state
      else state

  unfoldable pub init_rapl :
      SensorTables
      → (Bytes → Bool)
      → List Bytes
      → Sensors × List RaplDomain
      → Sensors × List RaplDomain
  unfolding is_prefix read_longlong read_string add_sensor process_sensor
  init_rapl db is_dir [] state = state
  init_rapl db is_dir (entry ∷ entries) state =
      init_rapl db is_dir entries (add_entry db is_dir entry state)

  abbrev watts : ℤ → ℤ → ℤ
  watts delta dt = f.div (f.div (f.of_ll delta) (pos 1_000_000_000_000)) dt

  abbrev pub sample_domain : ℤ → ℤ → RaplDomain → Sensors → Sensors
  sample_domain now uj dom s =
      let delta = delta_uj dom.wrap_uj dom.last_uj uj in
      let dt = f.sub now dom.last_time in
      if ltb_ℤ dom.last_uj (pos 0)
      then s
      else if ltb_ℤ (pos 0) dt && not (ltb_ℤ delta (pos 0))
      then process_sensor dom.key (watts delta dt) s
      else s

  abbrev read_domain : ℤ → Option ℤ → RaplDomain → RaplDomain
  read_domain now none dom = dom
  read_domain now (some uj) dom = record dom { last_uj = uj; last_time = now }

  abbrev pub sampled : ℤ → Option ℤ → RaplDomain → Sensors → Sensors
  sampled now none dom s = s
  sampled now (some uj) dom s = sample_domain now uj dom s

  unfoldable pub update_rapl : ℤ → List RaplDomain → Sensors → Sensors × List RaplDomain
  unfolding read_longlong process_sensor delta_uj
  update_rapl now [] s = (s, [])
  update_rapl now (dom ∷ rapl) s =
      let uj = read_longlong (file (dom.path ++ codes "/energy_uj")) in
      let (t, rest) = update_rapl now rapl (sampled now uj dom s) in
      (t, read_domain now uj dom ∷ rest)
