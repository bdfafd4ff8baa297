-- ===== src/Stats.antt =====
-- The state of the collectors that the replies read: src/Stats.h, src/System.h and the headers of
-- src/stats. A double is an integer in millionths; a time is a count of microseconds; the eight
-- deques of a series, newest sample first, are a list of lists.
pub mod SmartMetadata
pub mod LinuxProcStat
pub mod Schedule
pub mod History
pub mod Window
pub mod Items
pub mod Histories
pub mod Network
pub mod Activity
pub mod Processes
pub mod Sensors
pub mod Battery
pub mod Disks
pub mod Cpu
pub mod Memory
pub mod Pass
use istatserverlinux.Prelude.{ℕ, Bool, List}
use istatserverlinux.Prelude.Int.{ℤ}
use istatserverlinux.Text.{Bytes}
use SmartMetadata.{DiskHealth}

-- The arithmetic of double, on integers in millionths: the conversions from the integer types, the
-- operations, which round, and the way through a float.
pub record Floats : Type 0 where
  pub of_ull : ℕ → ℤ
  pub of_ll : ℤ → ℤ
  pub add : ℤ → ℤ → ℤ
  pub sub : ℤ → ℤ → ℤ
  pub mul : ℤ → ℤ → ℤ
  pub div : ℤ → ℤ → ℤ
  pub to_float : ℤ → ℤ

pub record Sample (V : Type 0) : Type 0 where
  pub sample_id : ℕ
  pub time : ℕ
  pub values : V

-- One series of samples for each of the eight intervals, with `sampleIndex[x].sampleID` of each.
pub record Series (V : Type 0) : Type 0 where
  pub session : ℕ
  pub sample_ids : List ℕ
  pub samples : List (List (Sample V))

-- A collector with items of its own.
pub record Collector (A : Type 0) : Type 0 where
  pub session : ℕ
  pub sample_ids : List ℕ
  pub items : List A

pub record CpuData : Type 0 where
  pub u : ℤ
  pub s : ℤ
  pub n : ℤ
  pub i : ℤ
  pub io : ℤ
  pub ent : ℤ
  pub phys : ℤ

pub record LoadData : Type 0 where
  pub one : ℤ
  pub two : ℤ
  pub three : ℤ

pub record NetData : Type 0 where
  pub d : ℤ
  pub u : ℤ

pub record NetworkInfo : Type 0 where
  pub active : Bool
  pub device : Bytes
  pub addresses : List Bytes
  pub last_down : ℕ
  pub last_up : ℕ
  pub samples : List (List (Sample NetData))

pub record ActivityData : Type 0 where
  pub r : ℤ
  pub w : ℤ
  pub r_iops : ℤ
  pub w_iops : ℤ

pub record ActivityInfo : Type 0 where
  pub active : Bool
  pub device : Bytes
  pub display_name : Bytes
  pub mounts : List Bytes
  pub last_r : ℕ
  pub last_w : ℕ
  pub last_riops : ℕ
  pub last_wiops : ℕ
  pub samples : List (List (Sample ActivityData))

pub record DiskData : Type 0 where
  pub f : ℤ
  pub u : ℤ
  pub t : ℤ
  pub p : ℤ

pub record DiskInfo : Type 0 where
  pub active : Bool
  pub is_new : Bool
  pub name : Bytes
  pub key : Bytes
  pub uuid : Bytes
  pub display_name : Bytes
  pub samples : List (List (Sample DiskData))

pub record SensorInfo : Type 0 where
  pub key : Bytes
  pub label : Bytes
  pub kind : ℤ
  pub method : ℕ
  pub recorded_value_changed : Bool
  pub lowest_value : ℤ
  pub highest_value : ℤ
  pub samples : List (List (Sample ℤ))

pub record BatteryInfo : Type 0 where
  pub key : Bytes
  pub path : Bytes
  pub adapterpath : Bytes
  pub active : Bool
  pub present : ℤ
  pub capacity_design : ℤ
  pub capacity_full : ℤ
  pub capacity_now : ℤ
  pub capacity_rate : ℤ
  pub voltage : ℤ
  pub health : ℤ
  pub time_remaining : ℤ
  pub cycles : ℤ
  pub state : ℤ
  pub source : ℤ
  pub percentage : ℤ

pub record ProcessInfo : Type 0 where
  pub exists : Bool
  pub is_new : Bool
  pub cpu_time : ℤ
  pub last_clock_time : ℤ
  pub threads : ℕ
  pub pid : ℕ
  pub cpu : ℤ
  pub memory : ℕ
  pub name : Bytes
  pub sample_id : ℕ

-- The standard library: how it prints a double (`ostream << d`) and reads one (`stringstream >> d`),
-- and std::sort of processes by whether one goes before another, which leaves the order of equal
-- ones open.
pub record Standard : Type 0 where
  pub show_double : ℤ → Bytes
  pub read_double : Bytes → ℤ
  pub sort : (ProcessInfo → ProcessInfo → Bool) → List ProcessInfo → List ProcessInfo

pub record Stats : Type 0 where
  pub history_enabled : Bool
  pub cpu : Series CpuData
  pub load : Series LoadData
  pub memory : Series (ℕ → ℤ)
  pub network : Collector NetworkInfo
  pub activity : Collector ActivityInfo
  pub disks : Collector DiskInfo
  pub sensors : Collector SensorInfo
  pub battery : Collector BatteryInfo
  pub processes : List ProcessInfo
  -- A long: the sum stays below 2 ^ 63 as long as the threads do.
  pub thread_count : ℕ
  pub process_count : ℕ
  pub uptime : ℕ
  pub health : List (Bytes × DiskHealth)
  pub now : ℕ
