-- ===== src/Stats/Disks.antt =====
-- src/stats/StatsDisks.cpp and src/stats/FilesystemFilters.h: which mounted file systems become
-- disks, their labels and their sizes. What the system says of a mount is a parameter.
pub mod Mounted
pub mod History
use istatserverlinux.Prelude.{
  ℕ, zero, suc, ◌+◌, ◌*◌, ◌%◌, ◌^◌, Bool, true, false, not, ◌&&◌, ◌||◌, List, [], ◌∷◌, ◌++◌, String,
  Option, none, some, ◌==◌, if◌then◌else◌, length,
}
use istatserverlinux.Prelude.Int.{ℤ, pos, ltb_ℤ}
use istatserverlinux.Prelude.Outcome.{Outcome, done, crash, ◌>>=◌}
use istatserverlinux.Text.{Bytes, codes, str_eq, is_prefix}
use istatserverlinux.Text.Explode.{explode}
use istatserverlinux.Text.Trim.{trim}
use istatserverlinux.Stats.{Floats, Sample, DiskData, DiskInfo}
use istatserverlinux.Stats.Schedule.{SampleIndex, prepare_update}
use istatserverlinux.Stats.History.{push_sample}
use istatserverlinux.Stats.Items.{has_key, push_rows, change_at, sub64}

abbrev pub any_eq : Bytes → List String → Bool
any_eq s [] = false
any_eq s (name ∷ names) = if str_eq s (codes name) then true else any_eq s names

abbrev pub any_prefix : Bytes → List String → Bool
any_prefix s [] = false
any_prefix s (name ∷ names) = if is_prefix (codes name) s then true else any_prefix s names

-- isIgnoredFilesystem
unfoldable pub is_ignored_filesystem : Bytes → Bool
unfolding str_eq
is_ignored_filesystem type = any_eq type (
    "rpc_pipefs" ∷ "rootfs" ∷ "configfs" ∷ "hugetlbfs" ∷ "nfsd" ∷ "mqueue" ∷ "selinuxfs"
    ∷ "linprocfs" ∷ "binfmt_misc" ∷ "tmpfs" ∷ "devpts" ∷ "devtmpfs" ∷ "pstore" ∷ "prl_fs" ∷ "cgroup"
    ∷ "iso9660" ∷ "securityfs" ∷ "fusectl" ∷ "proc" ∷ "procfs" ∷ "debugfs" ∷ "fuse.gvfsd-fuse"
    ∷ "sysfs" ∷ "devfs" ∷ "autofs" ∷ "fd" ∷ "lofs" ∷ "sharefs" ∷ "objfs" ∷ "mntfs" ∷ "dev"
    ∷ "cgroup2" ∷ "bpf" ∷ "tracefs" ∷ "efivarfs" ∷ "nsfs" ∷ [])

-- The tests of the system that is no Mac; their order does not matter.
unfoldable pub should_ignore_mount : Bool → Bytes → Bool
unfolding str_eq is_prefix
should_ignore_mount true mount = false
should_ignore_mount false mount =
    any_prefix mount (
      "/export" ∷ "/boot" ∷ "/tmp" ∷ "/system" ∷ "/usr/obj" ∷ "/usr/src" ∷ "/usr/local" ∷ "/usr/X11"
      ∷ "/usr/jails/." ∷ "/usr/home" ∷ [])
    || any_eq mount
        ("/usr" ∷ "/kern" ∷ "/dev/pts" ∷ "/compat/linux/proc" ∷ "/usr/jails" ∷ "/usr/ports" ∷ [])

-- `ready` is 1 once the first update is over; the settings come of the configuration.
pub record Disks : Type 0 where
  pub ready : Bool
  pub index : SampleIndex
  pub session : ℕ
  pub history_enabled : Bool
  pub use_mount_paths : Bool
  pub disable_filtering : Bool
  pub custom_names : List Bytes
  pub items : List DiskInfo

-- What statvfs says of a mount.
pub record Space : Type 0 where
  pub frsize : ℕ
  pub blocks : ℕ
  pub bavail : ℕ

pub record Mount : Type 0 where
  pub name : Bytes
  pub dir : Bytes
  pub type : Bytes
  pub space : Option Space

abbrev pub disk_key : DiskInfo → Bytes
disk_key item = item.key

unfoldable pub create_disk : Bytes → Disks → Disks
unfolding has_key
create_disk key s = if has_key disk_key s.items key then s else record s {
  session = s.session + 1;
  items =
      record {
        active = false;
        is_new = true;
        name = [];
        key = key;
        uuid = [];
        display_name = [];
        samples = [] ∷ [] ∷ [] ∷ [] ∷ [] ∷ [] ∷ [] ∷ [] ∷ [];
      }
      ∷ s.items;
}

abbrev last_or : Bytes → List Bytes → Bytes
last_or component [] = component
last_or component (c ∷ components) = last_or c components

abbrev links_to : Bytes → List Bytes → Bool
links_to key [] = false
links_to key (c ∷ components) = str_eq (codes "/dev/" ++ last_or c components) key

-- The last link of /dev/disk/by-uuid whose target is the device; a link is its name and its target.
unfoldable pub find_uuid : Bytes → List (Bytes × Bytes) → Bytes → Bytes
unfolding explode str_eq
find_uuid key [] uuid = uuid
find_uuid key ((name, target) ∷ links) uuid =
    find_uuid key links (if links_to key (explode target (codes "/")) then name else uuid)

-- conf_label[0] and conf_label[1]: a label of fewer than two words is read out of bounds.
abbrev pub label_of : Bytes → Bytes → Outcome Bytes → List Bytes → Outcome Bytes
label_of key name rest [] = crash
label_of key name rest (word ∷ []) = crash
label_of key name rest (word ∷ label ∷ words) =
    if not (length label == 0) && (str_eq word key || str_eq word name)
    then done (trim label (codes "\""))
    else rest

-- The first custom label for the device or its mount.
unfoldable pub custom_label : Bytes → Bytes → List Bytes → Outcome Bytes
unfolding explode str_eq trim
custom_label key name [] = done []
custom_label key name (cur ∷ labels) =
    label_of key name (custom_label key name labels) (explode cur (codes " "))

-- loadHistoryForDisk: the rows of the seven tables, in front.
abbrev pub load_history :
    (ℕ → List (Sample DiskData)) → ℕ → List (List (Sample DiskData)) → List (List (Sample DiskData))
load_history rows x [] = []
load_history rows zero (samples ∷ rest) = samples ∷ load_history rows 1 rest
load_history rows (suc x) (samples ∷ rest) =
    push_rows (rows (suc x)) samples ∷ load_history rows (suc (suc x)) rest

module _ (links : List (Bytes × Bytes)) (rows : Bytes → ℕ → List (Sample DiskData))
    (f : Floats) where
  abbrev pub uuid_of : DiskInfo → Bytes
  uuid_of item =
      let found = if length item.uuid == 0 then find_uuid item.key links [] else item.uuid in
      if length found == 0 then item.key else found

  -- With the custom label, empty where there is none.
  abbrev pub introduced : Disks → Mount → DiskInfo → Bytes → DiskInfo
  introduced s m item custom =
      let label = if s.use_mount_paths then m.dir else item.key in
      record item {
        is_new = false;
        uuid = uuid_of item;
        name = m.dir;
        display_name = if length custom == 0 then label else custom;
        samples =
            if s.history_enabled
            then load_history (rows (uuid_of item)) 0 item.samples
            else item.samples;
      }

  -- The first time that a disk is seen.
  unfoldable pub introduce : Disks → Mount → DiskInfo → Outcome DiskInfo
  unfolding find_uuid custom_label
  introduce s m item =
      if item.is_new
      then (do
        custom ← custom_label item.key m.dir s.custom_names
        done (introduced s m item custom))
      else done item

  -- get_sizes
  abbrev pub sizes : Space → DiskData
  sizes space =
      let t = f.of_ull ((space.blocks * space.frsize) % 2 ^ 64) in
      let u = f.of_ull ((sub64 space.blocks space.bavail * space.frsize) % 2 ^ 64) in
      record {
        f = f.sub t u;
        u = u;
        t = t;
        p =
            if ltb_ℤ (pos 0) t
            then f.to_float (f.mul (f.div (f.to_float u) t) (pos 100_000_000))
            else pos 0;
      }

  abbrev pub sample_sizes : SampleIndex → Option Space → DiskInfo → DiskInfo
  sample_sizes index none item = item
  sample_sizes index (some space) item = record item {
    active = true;
    samples =
        change_at 0
          (push_sample
            (record { sample_id = index.sample_id; time = index.time; values = sizes space }))
          item.samples;
  }

  -- Before the first update is over the loop ends at the first match.
  unfoldable pub process_items : Disks → Mount → List DiskInfo → Outcome (List DiskInfo)
  unfolding introduce str_eq
  process_items s m [] = done []
  process_items s m (item ∷ items) =
      let rest = process_items s m items in
      if str_eq m.name item.key
      then (if s.ready
          then (do
            seen ← introduce s m item
            others ← rest
            done (sample_sizes s.index m.space seen ∷ others))
          else (do seen ← introduce s m item; done (record seen { active = true } ∷ items)))
      else (do others ← rest; done (item ∷ others))

  abbrev pub left_out : Disks → Mount → Bool
  left_out s m =
      is_ignored_filesystem m.type
      || (not (has_key disk_key s.items m.name) && should_ignore_mount s.disable_filtering m.dir)

  unfoldable pub process_disk : Mount → Disks → Outcome Disks
  process_disk m s = if left_out s m then done s else (do
    let t = create_disk m.name s
    items ← process_items t m t.items
    done (record t { items = items }))

  -- update, over the table of mounts
  unfoldable pub update_mounts : List Mount → Disks → Outcome Disks
  unfolding process_disk
  update_mounts [] s = done s
  update_mounts (m ∷ mounts) s = process_disk m s >>= update_mounts mounts

abbrev passivate_disks : List DiskInfo → List DiskInfo
passivate_disks [] = []
passivate_disks (item ∷ items) = record item { active = false } ∷ passivate_disks items

unfoldable pub prepare_disks : Disks → Disks
prepare_disks s =
    if s.ready
    then record s { index = prepare_update s.index; items = passivate_disks s.items }
    else s
