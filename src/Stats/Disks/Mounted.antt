-- ===== src/Stats/Disks/Mounted.antt =====
-- Which mounted file systems src/stats/StatsDisks.cpp takes for disks.
use istatserverlinux.Prelude.{
  ℕ, Bool, true, false, not, ◌&&◌, ◌||◌, List, [], ◌∷◌, ◌==◌, if◌then◌else◌, length, ◌≡◌, refl, ap,
  sym, ◌∙◌, arith, Bool-cases, if_of_true, if_of_false, inl, inr, ◌≤◌, Option, none, some, All,
}
use istatserverlinux.Prelude.Outcome.{done}
use istatserverlinux.Text.Explode.{explode}
use istatserverlinux.Text.Trim.{trim}
use istatserverlinux.Text.{Bytes, codes, str_eq, str_eq_iff}
use istatserverlinux.Stats.{Floats, Sample, DiskData, DiskInfo}
use istatserverlinux.Stats.Items.{has_key}
use istatserverlinux.Stats.Disks.{
  Disks, Mount, disk_key, create_disk, introduce, process_items, process_disk, update_mounts,
  left_out, is_ignored_filesystem, should_ignore_mount, custom_label, label_of, introduced,
  sample_sizes, Space,
}

-- A mount of the key whose type and whose directory are not filtered.
abbrev pub is_wanted : Bool → List Mount → Bytes → Bool
is_wanted disabled [] key = false
is_wanted disabled (m ∷ mounts) key =
    (not (is_ignored_filesystem m.type)
      && not (should_ignore_mount disabled m.dir)
      && str_eq m.name key)
    || is_wanted disabled mounts key

-- Each custom label has the two words that are read of it.
abbrev pub AreLabels : List Bytes → Type 0
AreLabels = All (λ l. 2 ≤ length (explode l (codes " ")))

label_of_two :
    (key name : Bytes) (r : Bytes) (words : List Bytes)
    → 2 ≤ length words
    → (out : Bytes) × (label_of key name (done r) words ≡ done out)
label_of_two key name r [] h = absurd (omega (arith, h))
label_of_two key name r (word ∷ []) h = absurd (omega (arith, h))
label_of_two key name r (word ∷ label ∷ words) h =
    elim (Bool-cases (not (length label == 0) && (str_eq word key || str_eq word name))) [
      | inl e ↦ (trim label (codes "\""), rw e refl)
      | inr e ↦ (r, rw e refl)
    ]

custom_label_total :
    (key name : Bytes) (labels : List Bytes)
    → AreLabels labels
    → (out : Bytes) × (custom_label key name labels ≡ done out)
unfolding custom_label
custom_label_total key name [] h = ([], refl)
custom_label_total key name (cur ∷ labels) h =
    let (r, e) = custom_label_total key name labels h.1 in
    let (out, g) = label_of_two key name r (explode cur (codes " ")) h.0 in (out, rw e g)

if-or : (b c : Bool) → (if b then true else c) ≡ (b || c)
if-or true c = refl
if-or false c = refl

-- A mount that is left out is not wanted.
unwanted :
    (type has mount here there : Bool)
    → (type || (not has && mount)) ≡ true
    → ((not type && not mount && here || false) || there) ≡ there
unwanted true has mount here there e = refl
unwanted false true mount here there e = cc
unwanted false false true here there e = refl
unwanted false false false here there e = cc

-- A mount that is not left out is wanted, or its key is there already.
wanted :
    (type has mount here there : Bool)
    → (type || (not has && mount)) ≡ false
    → (has ≡ true → here ≡ true → there ≡ true)
    → (here || there) ≡ ((not type && not mount && here || false) || there)
wanted true has mount here there e k = cc
wanted false false true here there e k = cc
wanted false false false true there e k = refl
wanted false false false false there e k = refl
wanted false true false true there e k = refl
wanted false true false false there e k = refl
wanted false true true true there e k = rw (k refl refl) refl
wanted false true true false there e k = refl

or_swap :
    (rest same first there all : Bool)
    → rest ≡ same
    → all ≡ ((first || false) || there)
    → (rest || all) ≡ ((first || same) || there)
or_swap true true true there all e g = refl
or_swap true true false there all e g = refl
or_swap true false first there all e g = cc
or_swap false true first there all e g = cc
or_swap false false first there all e g = g

kept_settings :
    (name : Bytes) (s : Disks)
    → ((create_disk name s).custom_names ≡ s.custom_names)
      × ((create_disk name s).disable_filtering ≡ s.disable_filtering)
unfolding create_disk
kept_settings name s = elim (Bool-cases (has_key disk_key s.items name)) [
  | inl e ↦ rw e (refl, refl)
  | inr e ↦ rw e (refl, refl)
]

module _ (links : List (Bytes × Bytes)) (rows : Bytes → ℕ → List (Sample DiskData))
    (f : Floats) where
  introduce_total :
      (s : Disks) (m : Mount) (item : DiskInfo)
      → AreLabels s.custom_names
      → (out : DiskInfo) × (introduce links rows f s m item ≡ done out) × (out.key ≡ item.key)
  unfolding introduce
  introduce_total s m item h =
      let (custom, c) = custom_label_total item.key m.dir s.custom_names h in
      elim (Bool-cases item.is_new) [
        | inl e ↦ (introduced links rows f s m item custom, rw (e, c) refl, refl)
        | inr e ↦ (item, rw e refl, refl)
      ]

  key-sample_sizes :
      (s : Disks) (m : Mount) (item : DiskInfo)
      → (sample_sizes links rows f s.index m.space item).key ≡ item.key
  key-sample_sizes s m item = go m.space
    where
      go : (o : Option Space) → (sample_sizes links rows f s.index o item).key ≡ item.key
      go none = refl
      go (some space) = refl

  -- One item, given what becomes of it and of those behind it.
  process_items_step :
      (s : Disks) (m : Mount) (item : DiskInfo) (items : List DiskInfo) (seen : DiskInfo)
      (others : List DiskInfo)
      → introduce links rows f s m item ≡ done seen
      → seen.key ≡ item.key
      → process_items links rows f s m items ≡ done others
      → ((key : Bytes) → has_key disk_key others key ≡ has_key disk_key items key)
      → (out : List DiskInfo) × (process_items links rows f s m (item ∷ items) ≡ done out)
        × ((key : Bytes) → has_key disk_key out key ≡ has_key disk_key (item ∷ items) key)
  unfolding process_items has_key
  process_items_step s m item items seen others i k o same =
      elim (Bool-cases (str_eq m.name item.key)) [
        | inl e ↦ elim (Bool-cases s.ready) [
          | inl r ↦ (
            sample_sizes links rows f s.index m.space seen ∷ others,
            rw (e, process_items, i, o) (if_of_true s.ready _ _ r),
            λ key. rw (key-sample_sizes s m seen, k, same key) refl,
          )
          | inr r ↦ (
            record seen { active = true } ∷ items,
            rw (e, process_items, i, o) (if_of_false s.ready _ _ r),
            λ key. rw k refl,
          )
        ]
        | inr e ↦ (item ∷ others, rw (e, process_items, o) refl, λ key. rw (same key) refl)
      ]

  process_items_total :
      (s : Disks) (m : Mount) (items : List DiskInfo)
      → AreLabels s.custom_names
      → (out : List DiskInfo) × (process_items links rows f s m items ≡ done out)
        × ((key : Bytes) → has_key disk_key out key ≡ has_key disk_key items key)
  unfolding process_items
  process_items_total s m [] h = ([], refl, λ key. refl)
  process_items_total s m (item ∷ items) h =
      let (seen, i, k) = introduce_total s m item h in
      let (others, o, same) = process_items_total s m items h in
      process_items_step s m item items seen others i k o same

  has_key-create_disk :
      (name key : Bytes) (s : Disks)
      → has_key disk_key (create_disk name s).items key
        ≡ (str_eq name key || has_key disk_key s.items key)
  unfolding create_disk has_key
  has_key-create_disk name key s = elim (Bool-cases (has_key disk_key s.items name)) [
    | inr e ↦ rw e (if-or (str_eq name key) (has_key disk_key s.items key))
    | inl e ↦ elim (Bool-cases (str_eq name key)) [
      | inl k ↦
          let same : name ≡ key = (str_eq_iff name key).0 k in
          let there : has_key disk_key s.items key ≡ true = rw (← same) e in rw (e, k, there) refl
      | inr k ↦ rw (e, k) refl
    ]
  ]

  -- A mount adds its key where it is wanted, and takes none away.
  process_disk_total :
      (m : Mount) (s : Disks)
      → AreLabels s.custom_names
      → (t : Disks) × (process_disk links rows f m s ≡ done t)
        × (t.custom_names ≡ s.custom_names)
        × (t.disable_filtering ≡ s.disable_filtering)
        × ((key : Bytes)
            → has_key disk_key t.items key
              ≡ (is_wanted s.disable_filtering (m ∷ []) key || has_key disk_key s.items key))
  unfolding process_disk
  process_disk_total m s h = elim (Bool-cases (left_out links rows f s m)) [
    | inl e ↦ (s, rw e refl, refl, refl, λ key. sym (unwanted _ _ _ (str_eq m.name key) _ e))
    | inr e ↦
        let t = create_disk m.name s in
        let (same_names, same_filter) = kept_settings m.name s in
        let (items, done_items, same) = process_items_total t m t.items (rw same_names h) in
        (
          record t { items = items },
          rw (e, done_items) refl,
          same_names,
          same_filter,
          λ key.
              same key
              ∙ has_key-create_disk m.name key s
              ∙ wanted (is_ignored_filesystem m.type) (has_key disk_key s.items m.name)
                  (should_ignore_mount s.disable_filtering m.dir) (str_eq m.name key)
                  (has_key disk_key s.items key) e (λ h k. rw (← (str_eq_iff m.name key).0 k) h),
        )
  ]

  -- Where each custom label has two words, a pass over the table of mounts ends with disks for exactly
  -- the devices that had one before and those with a mount whose type and whose directory are not
  -- filtered.
  pub update_mounts-has_key :
      (mounts : List Mount) (s : Disks)
      → AreLabels s.custom_names
      → (t : Disks) × (update_mounts links rows f mounts s ≡ done t)
        × ((key : Bytes)
            → has_key disk_key t.items key
              ≡ (is_wanted s.disable_filtering mounts key || has_key disk_key s.items key))
  unfolding update_mounts
  update_mounts-has_key [] s h = (s, refl, λ key. refl)
  update_mounts-has_key (m ∷ mounts) s h =
      let (t, e, names, filter, one) = process_disk_total m s h in
      let (u, g, all) = update_mounts-has_key mounts t (rw names h) in
      (
        u,
        rw e g,
        λ key.
            all key
            ∙ or_swap (is_wanted t.disable_filtering mounts key)
                (is_wanted s.disable_filtering mounts key) _ _ _
                (ap (λ b. is_wanted b mounts key) filter) (one key),
      )
