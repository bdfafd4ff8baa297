-- ===== src/Stats/SmartMetadata/Volumes.antt =====
-- What `lookup` of src/stats/SmartMetadata.h finds of a status file that `refresh` has read.
use istatserverlinux.Prelude.{
  ℕ, ◌+◌, ◌≤◌, ◌<◌, true, false, ◌&&◌, List, [], ◌∷◌, Option, none, some, ◌≡◌, ◌≢◌, refl, ap, ◌∙◌,
  ◌⊎◌, inl, inr, arith, if◌then◌else◌, Bool-cases, Option-cases,
}
use istatserverlinux.Text.{Bytes, codes, str_eq, str_eq_iff, str_eq_comm}
use istatserverlinux.Xml.{Nodes, nil, cons, has_name}
use istatserverlinux.Stats.SmartMetadata.{
  DiskHealth, no_health, attribute, put_volume, volume_health, read_volumes, SmartMetadata,
  StatusFile, refresh, is_stale, find_volume, lookup,
}

-- The last `volume` of the name among the nodes, or else what was known before.
abbrev pub last_health : Bytes → Option DiskHealth → Nodes → Option DiskHealth
last_health bsd known nil = known
last_health bsd known (cons node rest) =
    last_health bsd
      (if has_name node (codes "volume") && str_eq (attribute node (codes "bsd")) bsd
        then some (volume_health node)
        else known)
      rest

-- One text cannot equal two different ones.
apart :
    (k bsd other : Bytes) → str_eq k bsd ≡ false → str_eq k other ≡ true → str_eq bsd other ≡ false
apart k bsd other e f =
    let same : k ≡ other = (str_eq_iff k other).0 f in str_eq_comm bsd other ∙ rw (← same) e

find_volume-put_volume :
    (bsd other : Bytes) (h : DiskHealth) (volumes : List (Bytes × DiskHealth))
    → find_volume other (put_volume bsd h volumes)
      ≡ (if str_eq bsd other then some h else find_volume other volumes)
unfolding find_volume put_volume
find_volume-put_volume bsd other h [] = refl
find_volume-put_volume bsd other h ((k, g) ∷ volumes) = elim (Bool-cases (str_eq k bsd)) [
  | inl e ↦ let same : k ≡ bsd = (str_eq_iff k bsd).0 e in rw (e, same) (ground arith)
  | inr e ↦ ground (arith, find_volume-put_volume bsd other h volumes, apart k bsd other e)
]

find_volume-read_volumes :
    (bsd : Bytes) (nodes : Nodes) (volumes : List (Bytes × DiskHealth))
    → find_volume bsd (read_volumes volumes nodes) ≡ last_health bsd (find_volume bsd volumes) nodes
unfolding read_volumes
find_volume-read_volumes bsd nil volumes = refl
find_volume-read_volumes bsd (cons node rest) volumes =
    find_volume-read_volumes bsd rest (
      if has_name node (codes "volume")
      then put_volume (attribute node (codes "bsd")) (volume_health node) volumes
      else volumes)
    ∙ ap (λ known. last_health bsd known rest)
        (elim (Bool-cases (has_name node (codes "volume"))) [
          | inl e ↦ rw e (
              find_volume-put_volume (attribute node (codes "bsd")) bsd (volume_health node)
                volumes)
          | inr e ↦ rw e refl
        ])

-- The time of the check is known, at most a minute ahead and at most fifteen minutes old.
abbrev pub IsFresh : ℕ → DiskHealth → Type 0
IsFresh now h = (h.checked ≢ 0) × (h.checked ≤ now + 60) × (now ≤ h.checked + 900)

stale_not-IsFresh : (now : ℕ) (h : DiskHealth) → is_stale now h ≡ true → ¬ IsFresh now h
stale_not-IsFresh now h s (known, ahead, old) = ground (arith, s)

-- A volume's health is that of the last `volume` of its name in the status file: as it stands there
-- if the time of its check is known, at most a minute ahead and at most fifteen minutes old, and else
-- with the state `stale`; a volume that the file does not name has an empty health.
pub lookup-read_volumes :
    (nodes : Nodes) (now : ℕ) (bsd : Bytes)
    → (last_health bsd none nodes ≡ none) × (lookup (read_volumes [] nodes) now bsd ≡ no_health)
      ⊎ ((h : DiskHealth) × (last_health bsd none nodes ≡ some h)
          × (IsFresh now h × (lookup (read_volumes [] nodes) now bsd ≡ h)
              ⊎ (¬ IsFresh now h)
                × (lookup (read_volumes [] nodes) now bsd ≡ record h { state = codes "stale" })))
unfolding lookup find_volume
lookup-read_volumes nodes now bsd = elim (Option-cases (last_health bsd none nodes)) [
  | inl e ↦ inl (e, rw (find_volume-read_volumes bsd nodes [], e) refl)
  | inr (h, e) ↦ inr (
    h,
    e,
    elim (Bool-cases (is_stale now h)) [
      | inl s ↦
          inr (stale_not-IsFresh now h s, rw (find_volume-read_volumes bsd nodes [], e, s) refl)
      | inr s ↦ inl (
        (ground (arith, s), ground (arith, s), ground (arith, s)),
        rw (find_volume-read_volumes bsd nodes [], e, s) refl,
      )
    ],
  )
]

-- Less than 30 seconds behind a time at which `refresh` has read the file, `refresh` changes
-- nothing, whatever the file then holds.
pub refresh_once :
    (m : SmartMetadata) (now later : ℕ) (file file' : Option StatusFile)
    → (refresh m now file).last_read ≡ now
    → now ≤ later
    → later < now + 30
    → refresh (refresh m now file) later file' ≡ refresh m now file
unfolding refresh
refresh_once m now later file file' r a b = ground arith
