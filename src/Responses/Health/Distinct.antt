-- ===== src/Responses/Health/Distinct.antt =====
-- The devices of `isr_smart_data` of src/Responses.cpp.
use istatserverlinux.Prelude.{
  ℕ, false, not, ◌||◌, List, [], ◌∷◌, ◌++◌, ◌≡◌, ◌≢◌, refl, arith, ◌==◌, length, if-cases,
}
use istatserverlinux.Text.{Bytes, str_eq, str_eq_comm}
use istatserverlinux.Stats.{DiskInfo}
use istatserverlinux.Responses.Keys.{holds, should_add_key}
use istatserverlinux.Responses.Device.{device_path_for_bsd}
use istatserverlinux.Responses.Health.{physical_of, disk_requested, smart_devices}

-- The devices are different from each other, and each has a name.
abbrev pub AreDistinct : List Bytes → Type 0
AreDistinct [] = Unit
AreDistinct (d ∷ ds) = (holds ds d ≡ false) × (length d ≢ 0) × AreDistinct ds

holds-concat_false :
    (ds : List Bytes) (d e : Bytes)
    → holds ds e ≡ false
    → str_eq d e ≡ false
    → holds (ds ++ d ∷ []) e ≡ false
unfolding holds
holds-concat_false [] d e h n = ground arith
holds-concat_false (c ∷ ds) d e h n = ground (arith, holds-concat_false ds d e)

AreDistinct-concat :
    (ds : List Bytes) (d : Bytes)
    → AreDistinct ds
    → holds ds d ≡ false
    → length d ≢ 0
    → AreDistinct (ds ++ d ∷ [])
unfolding holds
AreDistinct-concat [] d h n l = (refl, l, tt)
AreDistinct-concat (e ∷ ds) d h n l = (
  holds-concat_false ds d e h.0 (ground (arith, str_eq_comm d e)),
  h.1,
  AreDistinct-concat ds d h.2 (ground arith) l,
)

module _ (index : ℕ) (keys : List Bytes) where
  smart_devices-from :
      (items : List DiskInfo) (emitted added : List Bytes)
      → AreDistinct emitted
      → AreDistinct (smart_devices index keys items emitted added).0
  unfolding smart_devices
  smart_devices-from [] emitted added h = h
  smart_devices-from (item ∷ items) emitted added h =
      let skip = smart_devices-from items emitted added h in
      if-cases fine (not item.active) _ _ (λ _. skip)
        (λ _.
          if-cases fine (length (physical_of item) == 0 || holds emitted (physical_of item)) _ _
            (λ _. skip)
            (λ fresh.
              if-cases fine (not (disk_requested item keys)) _ _ (λ _. skip)
                (λ _.
                  let added' =
                    (should_add_key index (device_path_for_bsd (physical_of item)) [] added).1 in
                  if-cases fine
                    (should_add_key index (device_path_for_bsd (physical_of item)) [] added).0 _ _
                    (λ _. smart_devices-from items (emitted ++ physical_of item ∷ []) added' (
                      AreDistinct-concat emitted (physical_of item) h (ground (arith, fresh))
                        (ground (arith, fresh))))
                    (λ _. smart_devices-from items emitted added' h))))
    where
      fine : List Bytes × List Bytes → Type 0
      fine r = AreDistinct r.0

-- The devices that the reply about SMART names, of any disks, keys and marks, are different from each
-- other, and none is without a name.
pub smart_devices-AreDistinct :
    (index : ℕ) (keys : List Bytes) (items : List DiskInfo) (added : List Bytes)
    → AreDistinct (smart_devices index keys items [] added).0
smart_devices-AreDistinct index keys items added = smart_devices-from index keys items [] added tt
