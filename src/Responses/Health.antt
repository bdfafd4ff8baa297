-- ===== src/Responses/Health.antt =====
-- `isr_diskinfo_data` and `isr_smart_data` of src/Responses.cpp: the mounted volumes with what SMART
-- says of them, and the physical devices that hold them.
pub mod Distinct
use istatserverlinux.Prelude.{
  ℕ, Bool, not, ◌||◌, List, [], ◌∷◌, ◌++◌, if◌then◌else◌, length, ltb, ◌==◌, drop,
}
use istatserverlinux.Prelude.Outcome.{Outcome, done, ◌>>=◌}
use istatserverlinux.Text.{Bytes, codes, is_prefix}
use istatserverlinux.Text.Number.{show}
use istatserverlinux.Stats.{Collector, DiskInfo}
use istatserverlinux.Stats.SmartMetadata.{DiskHealth, lookup}
use istatserverlinux.Responses.Escape.{encode_for_xml}
use istatserverlinux.Responses.Keys.{holds, key_was_requested, should_add_key}
use istatserverlinux.Responses.Device.{
  bsd_name_for_disk_key, physical_bsd_for_partition, device_path_for_bsd,
}
use istatserverlinux.Responses.Samples.{at_index, cat}
use istatserverlinux.Responses.Item.{Added, stat_of, if_added, skipped}

abbrev pub physical_of : DiskInfo → Bytes
physical_of item = physical_bsd_for_partition (bsd_name_for_disk_key item.key)

-- The request names the item by any of five keys.
unfoldable pub disk_requested : DiskInfo → List Bytes → Bool
disk_requested item keys =
    key_was_requested item.key keys
    || key_was_requested item.uuid keys
    || key_was_requested (bsd_name_for_disk_key item.key) keys
    || key_was_requested (physical_of item) keys
    || key_was_requested (device_path_for_bsd (physical_of item)) keys

abbrev optional : Bytes → Bytes → Bytes
optional name value =
    if ltb 0 (length value) then cat (name ∷ encode_for_xml value ∷ codes "\"" ∷ []) else []

module _ (index : ℕ) (keys : List Bytes) where
  health_attributes : DiskHealth → Bytes
  unfolding cat
  health_attributes health =
      if length health.state == 0
      then []
      else cat (
          codes " health_version=\"1\" health_state=\""
          ∷ encode_for_xml health.state
          ∷ codes "\" health_devices=\""
          ∷ encode_for_xml health.devices
          ∷ codes "\" health_checked=\""
          ∷ show health.checked
          ∷ codes "\" health_detail=\""
          ∷ encode_for_xml health.detail
          ∷ codes "\""
          ∷ [])

  -- item.key.compare(0, 5, "/dev/") == 0 ? item.key.substr(5) : bsd
  health_key : DiskInfo → Bytes
  health_key item =
      if is_prefix (codes "/dev/") item.key then drop 5 item.key else bsd_name_for_disk_key item.key

  diskinfo_item : List (Bytes × DiskHealth) → ℕ → DiskInfo → List Bytes → Outcome Added
  unfolding cat health_attributes health_key disk_requested if_added
  diskinfo_item volumes now item added =
      let bsd = bsd_name_for_disk_key item.key in
      if not item.active
      then skipped added
      else if not (disk_requested item keys)
      then skipped added
      else if_added index item.key [] added (
          done (
            cat (
              codes "<item uuid=\""
              ∷ encode_for_xml item.uuid
              ∷ codes "\" key=\""
              ∷ encode_for_xml item.key
              ∷ codes "\" bsd=\""
              ∷ encode_for_xml bsd
              ∷ codes "\" name=\""
              ∷ encode_for_xml item.display_name
              ∷ codes "\" type=\"volume\""
              ∷ health_attributes (lookup volumes now (health_key item))
              ∷ optional (codes " physical=\"") (physical_of item)
              ∷ optional (codes " partitions=\"") bsd
              ∷ codes " samples=\"0\"></item>"
              ∷ [])))

  unfoldable pub isr_diskinfo_data :
      List (Bytes × DiskHealth) → ℕ → Collector DiskInfo → List Bytes → Outcome Added
  unfolding stat_of diskinfo_item
  isr_diskinfo_data volumes now stats =
      stat_of (codes "diskinfo") [] index stats (diskinfo_item volumes now)

  -- The loop of `isr_smart_data`: `emitted` is the set of devices that are in the reply.
  unfoldable pub smart_devices : List DiskInfo → List Bytes → List Bytes → List Bytes × List Bytes
  unfolding disk_requested
  smart_devices [] emitted added = (emitted, added)
  smart_devices (item ∷ items) emitted added =
      let physical = physical_of item in
      let path = device_path_for_bsd physical in
      let (add, added') = should_add_key index path [] added in
      let skip = smart_devices items emitted added in
      let refused = smart_devices items emitted added' in
      let next = smart_devices items (emitted ++ physical ∷ []) added' in
      if not item.active
      then skip
      else if length physical == 0 || holds emitted physical
      then skip
      else if not (disk_requested item keys)
      then skip
      else if add
      then next
      else refused

  -- The text of one device of the reply.
  smart_rows : List Bytes → Bytes
  unfolding cat
  smart_rows [] = []
  smart_rows (physical ∷ rest) =
      cat (
        codes "<item uuid=\""
        ∷ encode_for_xml (device_path_for_bsd physical)
        ∷ codes "\" key=\""
        ∷ encode_for_xml (device_path_for_bsd physical)
        ∷ codes "\" bsd=\""
        ∷ encode_for_xml physical
        ∷ codes "\" samples=\"0\"></item>"
        ∷ [])
      ++ smart_rows rest

  unfoldable pub isr_smart_data : Collector DiskInfo → List Bytes → Outcome Added
  unfolding cat smart_devices smart_rows
  isr_smart_data stats added = do
    sample_id ← at_index stats.sample_ids index
    let devices = smart_devices stats.items [] added
    done (
      cat (
          codes "<stat type=\"smart\" interval=\""
          ∷ show index
          ∷ codes "\" session=\""
          ∷ show stats.session
          ∷ codes "\" id=\""
          ∷ show sample_id
          ∷ codes "\">"
          ∷ smart_rows devices.0
          ∷ codes "</stat>"
          ∷ []),
      devices.1,
    )
