-- ===== src/Stats/Sensors/Update.antt =====
-- `init` and `update` of src/stats/StatsSensors.cpp on Linux without libsensors and sysctl, over all
-- sources of sensors, and the limits that go to the database.
use istatserverlinux.Prelude.{ℕ, Bool, List, [], ◌∷◌, Option, none, some, if◌then◌else◌}
use istatserverlinux.Prelude.Int.{ℤ}
use istatserverlinux.Prelude.Outcome.{Outcome, done, ◌>>=◌}
use istatserverlinux.Text.{Bytes, codes}
use istatserverlinux.Stats.{Floats, SensorInfo}
use istatserverlinux.Stats.Sensors.{Sensors, SensorTables, init_qnap, update_qnap}
use istatserverlinux.Stats.Sensors.Thermal.{init_sysfs_thermal, update_sysfs_thermal}
use istatserverlinux.Stats.Sensors.Cpufreq.{init_sysfs_cpufreq, update_sysfs_cpufreq}
use istatserverlinux.Stats.Sensors.Gpu.{Gpus, init_sysfs_devfreq_gpu, update_sysfs_devfreq_gpu}
use istatserverlinux.Stats.Sensors.Rapl.{RaplDomain, init_rapl, update_rapl}

-- The members of StatsSensors.
pub record Sources : Type 0 where
  pub gpus : Gpus
  pub rapl : List RaplDomain

-- One row of sensor_limits: the key, the lowest and the highest value.
pub record LimitRow : Type 0 where
  pub uuid : Bytes
  pub low : ℤ
  pub high : ℤ

-- The rows that `update` writes with a history.
unfoldable pub limit_rows : List SensorInfo → List LimitRow
limit_rows [] = []
limit_rows (item ∷ items) =
    let rows = limit_rows items in
    if item.recorded_value_changed
    then record { uuid = item.key; low = item.lowest_value; high = item.highest_value } ∷ rows
    else rows

-- What the system gives: the contents of files, the names in directories, whether there is a file or a
-- directory at a path, a double at the start of a text, and the temperature of a QNAP.
pub record Machine : Type 0 where
  pub file : Bytes → Option Bytes
  pub dir : Bytes → Option (List Bytes)
  pub exists : Bytes → Bool
  pub is_dir : Bytes → Bool
  pub scan_double : Bytes → Option ℤ
  pub qnap : Option ℤ
  pub now : ℤ

abbrev pub names_in : Option (List Bytes) → List Bytes
names_in none = []
names_in (some names) = names

module _ (m : Machine) (f : Floats) (db : SensorTables) where
  -- init; the fuel is for the reading of related_cpus.
  unfoldable pub init_sensors : ℕ → Sensors → Outcome Sources
  unfolding init_qnap init_sysfs_thermal init_sysfs_cpufreq init_sysfs_devfreq_gpu init_rapl
  init_sensors fuel s = do
    let thermal =
        init_sysfs_thermal m.file db (m.dir (codes "/sys/class/thermal")) (init_qnap db m.qnap s)
    cpufreq ← init_sysfs_cpufreq m.file db fuel (m.dir (codes "/sys/devices/system/cpu")) thermal
    let g = init_sysfs_devfreq_gpu m.file f m.scan_double db m.dir m.exists cpufreq
    let (sensors, rapl) =
        init_rapl m.file f db m.is_dir (names_in (m.dir (codes "/sys/class/powercap")))
          (g.sensors, [])
    done (record { gpus = record g { sensors = sensors }; rapl = rapl })

  unfoldable pub update_sensors : Sources → Sources
  unfolding update_qnap update_sysfs_thermal update_sysfs_cpufreq update_sysfs_devfreq_gpu
      update_rapl
  update_sensors old =
      let thermal =
        update_sysfs_thermal m.file f (names_in (m.dir (codes "/sys/class/thermal")))
          (update_qnap f m.qnap old.gpus.sensors) in
      let g =
        update_sysfs_devfreq_gpu m.file f m.scan_double db m.dir m.exists
          (record (old.gpus) { sensors = update_sysfs_cpufreq m.file f thermal }) in
      let (sensors, rapl) = update_rapl m.file f m.now old.rapl g.sensors in
      record { gpus = record g { sensors = sensors }; rapl = rapl }
