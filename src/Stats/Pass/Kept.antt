-- ===== src/Stats/Pass/Kept.antt =====
-- What the updates of the collectors keep of their indexes.
use istatserverlinux.Prelude.{
  ℕ, List, [], ◌∷◌, Option, none, some, ltb, ◌≡◌, refl, ◌∙◌, subst, Bool-cases, if-cases, inl, inr,
  ◌||◌,
}
use istatserverlinux.Prelude.Int.{ℤ}
use istatserverlinux.Prelude.Outcome.{done, >>=-eq-done}
use istatserverlinux.Text.{Bytes, codes, str_eq}
use istatserverlinux.Text.Scan.{fgets_lines}
use istatserverlinux.Stats.{Floats, Sample, NetData, NetworkInfo, ActivityData, DiskData}
use istatserverlinux.Stats.History.{Track}
use istatserverlinux.Stats.Items.{has_key}
use istatserverlinux.Stats.Cpu.{Ticks, Cpu, process_sample, read_stat_line, update_procfs}
use istatserverlinux.Stats.Memory.{update_memory}
use istatserverlinux.Stats.Network.{
  Network, Row, device_of, ignored_interface, is_down, update_row, create_interface,
  process_interface, update_interfaces,
}
use istatserverlinux.Stats.Disks.{Disks, Mount, disk_key, left_out, process_items, update_mounts}
use istatserverlinux.Stats.Disks
use istatserverlinux.Stats.Activity.{
  Activity, DiskRow, Counters, activity_device, counters_of, is_left_out, update_disk_row,
  create_disk, process_disk, update_disks,
}

module _ (f : Floats) where
  process_sample-index :
      (new : Ticks) (total : ℕ) (c : Cpu)
      → (process_sample f new total c).track.index ≡ c.track.index
  unfolding process_sample
  process_sample-index new total c =
      if-cases (λ (d : Cpu). d.track.index ≡ c.track.index) (ltb 0 total) _ _ (λ e. refl)
        (λ e. refl)

  read_stat_line-index :
      (c : Cpu) (lines : List Bytes) → (read_stat_line f c lines).track.index ≡ c.track.index
  read_stat_line-index c [] = refl
  read_stat_line-index c (buf ∷ lines) = process_sample-index _ 0 c

  pub update_procfs-index :
      (stat : Option Bytes) (c : Cpu) → (update_procfs f stat c).track.index ≡ c.track.index
  unfolding update_procfs
  update_procfs-index none c = refl
  update_procfs-index (some stat) c = read_stat_line-index c (fgets_lines 320 stat)

  pub update_memory-index :
      (meminfo vmstat : Option Bytes) (t : Track (ℕ → ℤ))
      → (update_memory f meminfo vmstat t).index ≡ t.index
  unfolding update_memory
  update_memory-index none vmstat t = refl
  update_memory-index (some meminfo) none t = refl
  update_memory-index (some meminfo) (some vmstat) t = refl

-- The index, and whether the first update is over.
abbrev pub IsSameNetwork : Network → Network → Type 0
IsSameNetwork s t = (t.index ≡ s.index) × (t.ready ≡ s.ready)

module _ (addresses : List NetworkInfo → List NetworkInfo)
    (rows : Bytes → ℕ → List (Sample NetData)) (f : Floats) where
  create_interface-Same :
      (key : Bytes) (s : Network) → IsSameNetwork s (create_interface addresses rows key s)
  unfolding create_interface
  create_interface-Same key s =
      elim (Bool-cases (str_eq key (codes "lo") || str_eq key (codes "lo0"))) [
        | inl e ↦ rw e (refl, refl)
        | inr e ↦ elim (Bool-cases (has_key device_of s.items key)) [
          | inl g ↦ rw (e, g) (refl, refl)
          | inr g ↦ rw (e, g) (refl, refl)
        ]
      ]

  process_interface-Same :
      (key : Bytes) (up down : ℕ) (s : Network)
      → IsSameNetwork s (process_interface addresses rows f key up down s)
  unfolding process_interface
  process_interface-Same key up down s = elim (Bool-cases (ignored_interface key)) [
    | inl e ↦ rw e (refl, refl)
    | inr e ↦ rw e (create_interface-Same key s)
  ]

  row-Same :
      (active : List Bytes) (row : Row) (s : Network)
      → IsSameNetwork s (update_row addresses rows f active row s)
  row-Same active row s =
      if-cases (IsSameNetwork s) (is_down addresses rows f active row.dev) s
        (process_interface addresses rows f row.dev row.upload row.download s) (λ e. (refl, refl))
        (λ e. process_interface-Same row.dev row.upload row.download s)

  pub update_interfaces-Same :
      (active : List Bytes) (lines : List Row) (s : Network)
      → IsSameNetwork s (update_interfaces addresses rows f active lines s)
  unfolding update_interfaces
  update_interfaces-Same active [] s = (refl, refl)
  update_interfaces-Same active (row ∷ lines) s =
      let first = row-Same active row s in
      let rest = update_interfaces-Same active lines (update_row addresses rows f active row s) in
      (rest.0 ∙ first.0, rest.1 ∙ first.1)

abbrev pub IsSameActivity : Activity → Activity → Type 0
IsSameActivity s t = (t.index ≡ s.index) × (t.ready ≡ s.ready)

module _ (rows : Bytes → ℕ → List (Sample ActivityData)) (f : Floats) where
  create_disk-Same : (key : Bytes) (s : Activity) → IsSameActivity s (create_disk rows key s)
  unfolding create_disk
  create_disk-Same key s = elim (Bool-cases (has_key activity_device s.items key)) [
    | inl e ↦ rw e (refl, refl)
    | inr e ↦ rw e (refl, refl)
  ]

  process_disk-Same :
      (key : Bytes) (c : Counters) (name : Bytes) (s : Activity)
      → IsSameActivity s (process_disk rows f key c name s)
  unfolding process_disk
  process_disk-Same key c name s =
      elim (Bool-cases (str_eq key (codes "pass") || str_eq key (codes "cd"))) [
        | inl e ↦ rw e (refl, refl)
        | inr e ↦ rw e (create_disk-Same key s)
      ]

  line-Same : (row : DiskRow) (s : Activity) → IsSameActivity s (update_disk_row rows f row s)
  line-Same row s =
      if-cases (IsSameActivity s) (is_left_out rows f row.major) s
        (process_disk rows f row.dev (counters_of rows f row) [] s) (λ e. (refl, refl))
        (λ e. process_disk-Same row.dev (counters_of rows f row) [] s)

  pub update_disks-Same :
      (lines : List DiskRow) (s : Activity) → IsSameActivity s (update_disks rows f lines s)
  unfolding update_disks
  update_disks-Same [] s = (refl, refl)
  update_disks-Same (row ∷ lines) s =
      let first = line-Same row s in
      let rest = update_disks-Same lines (update_disk_row rows f row s) in
      (rest.0 ∙ first.0, rest.1 ∙ first.1)

done_same : {A : Type 0} {a b : A} → done a ≡ done b → a ≡ b
done_same {a = a} {b = b} h = cc h

abbrev pub IsSameDisks : Disks → Disks → Type 0
IsSameDisks s t = (t.index ≡ s.index) × (t.ready ≡ s.ready) × (t.custom_names ≡ s.custom_names)

module _ (links : List (Bytes × Bytes)) (rows : Bytes → ℕ → List (Sample DiskData))
    (f : Floats) where
  created-Same : (key : Bytes) (s : Disks) → IsSameDisks s (Disks.create_disk key s)
  unfolding Disks.create_disk
  created-Same key s = elim (Bool-cases (has_key disk_key s.items key)) [
    | inl e ↦ rw e (refl, refl, refl)
    | inr e ↦ rw e (refl, refl, refl)
  ]

  mount-Same :
      (m : Mount) (s t : Disks) → Disks.process_disk links rows f m s ≡ done t → IsSameDisks s t
  unfolding Disks.process_disk
  mount-Same m s t h = elim (Bool-cases (left_out links rows f s m)) [
    | inl e ↦
        let same : s ≡ t = done_same (rw (e, Disks.process_disk) at h) in
        subst (IsSameDisks s) same (refl, refl, refl)
    | inr e ↦
        let u = Disks.create_disk m.name s in
        let (items, made, last) =
          >>=-eq-done (process_items links rows f u m u.items)
            (λ items. done (record u { items = items })) (rw (e, Disks.process_disk) at h) in
        let same : record u { items = items } ≡ t = done_same last in
        subst (IsSameDisks s) same (created-Same m.name s)
  ]

  pub update_mounts-Same :
      (mounts : List Mount) (s t : Disks)
      → update_mounts links rows f mounts s ≡ done t
      → IsSameDisks s t
  unfolding update_mounts
  update_mounts-Same [] s t h = subst (IsSameDisks s) (done_same h) (refl, refl, refl)
  update_mounts-Same (m ∷ mounts) s t h =
      let (u, one, rest) =
        >>=-eq-done (Disks.process_disk links rows f m s) (update_mounts links rows f mounts) h in
      let first = mount-Same m s u one in
      let then_rest = update_mounts-Same mounts u t rest in
      (then_rest.0 ∙ first.0, then_rest.1 ∙ first.1, then_rest.2 ∙ first.2)
