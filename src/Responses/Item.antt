-- ===== src/Responses/Item.antt =====
-- The replies of src/Responses.cpp that list items with samples: network, disk activity, disks and
-- batteries.
use istatserverlinux.Prelude.{ℕ, not, List, [], ◌∷◌, ◌++◌, if◌then◌else◌, length, ltb, ◌==◌}
use istatserverlinux.Prelude.Int.{ℤ}
use istatserverlinux.Prelude.Outcome.{Outcome, done, ◌>>=◌}
use istatserverlinux.Text.{Bytes, codes}
use istatserverlinux.Text.Number.{show, show_ℤ}
use istatserverlinux.Stats.{
  Standard, Sample, Collector, NetData, NetworkInfo, ActivityData, ActivityInfo, DiskData, DiskInfo,
  BatteryInfo,
}
use istatserverlinux.Responses.Escape.{encode_for_xml}
use istatserverlinux.Responses.Keys.{should_add_key}
use istatserverlinux.Responses.Samples.{newer_long, newer_samples, at_index, show_time, cat, rows}

-- A text and the keys added so far.
abbrev pub Added : Type 0
Added = Bytes × List Bytes

-- The loop over the items, each with the keys that those before it left.
unfoldable pub each_item :
    {A : Type 0} → (A → List Bytes → Outcome Added) → List A → List Bytes → Outcome Added
each_item body [] added = done ([], added)
each_item body (item ∷ items) added = do
  first ← body item added
  rest ← each_item body items first.1
  done (first.0 ++ rest.0, rest.1)

abbrev pub skipped : List Bytes → Outcome Added
skipped added = done ([], added)

-- if(!shouldAddKey(index, key, keys, added)) continue;
unfoldable pub if_added : ℕ → Bytes → List Bytes → List Bytes → Outcome Bytes → Outcome Added
if_added index key keys added text =
    let (add, added') = should_add_key index key keys added in
    if add then (do output ← text; done (output, added')) else skipped added'

-- "<stat type=... id=...>", the items, "</stat>".
unfoldable pub stat_of :
    {A : Type 0}
    → Bytes
    → Bytes
    → ℕ
    → Collector A
    → (A → List Bytes → Outcome Added)
    → List Bytes
    → Outcome Added
unfolding cat each_item
stat_of type tail index stats body added = do
  sample_id ← at_index stats.sample_ids index
  items ← each_item body stats.items added
  done (
    cat (
        codes "<stat type=\""
        ∷ type
        ∷ codes "\" interval=\""
        ∷ show index
        ∷ codes "\" session=\""
        ∷ show stats.session
        ∷ codes "\" id=\""
        ∷ show sample_id
        ∷ codes "\""
        ∷ tail
        ∷ codes ">"
        ∷ items.0
        ∷ codes "</stat>"
        ∷ []),
    items.1,
  )

-- The texts with a comma between two.
unfoldable pub commas : List Bytes → Bytes
commas [] = []
commas (a ∷ []) = a
commas (a ∷ b ∷ rest) = a ++ (b',' ∷ commas (b ∷ rest))

-- addresses += "," only behind a text that is not empty.
unfoldable pub join_addresses : Bytes → List Bytes → Bytes
join_addresses out [] = out
join_addresses out (a ∷ rest) =
    join_addresses ((if ltb 0 (length out) then out ++ codes "," else out) ++ a) rest

module _ (standard : Standard) (index : ℕ) (sample_id : ℤ) (keys : List Bytes) where
  open standard use {show_double}

  net_row : Sample NetData → Bytes
  unfolding cat
  net_row sample = cat (
      codes "<s id=\""
      ∷ show sample.sample_id
      ∷ codes "\" time=\""
      ∷ show_time sample.time
      ∷ codes "\" d=\""
      ∷ show_double sample.values.d
      ∷ codes "\" u=\""
      ∷ show_double sample.values.u
      ∷ codes "\"></s>"
      ∷ [])

  network_item : NetworkInfo → List Bytes → Outcome Added
  unfolding cat rows net_row join_addresses if_added
  network_item item added =
      if not item.active
      then skipped added
      else if_added index item.device keys added (do
        deque ← at_index item.samples index
        let samples = newer_samples (newer_long sample_id) deque
        done (
            cat (
              codes "<item uuid=\""
              ∷ encode_for_xml item.device
              ∷ codes "\" samples=\""
              ∷ show (length samples)
              ∷ codes "\""
              ∷ (if index == 0
                  then cat (
                      codes " name=\""
                      ∷ encode_for_xml item.device
                      ∷ codes "\" ip=\""
                      ∷ encode_for_xml (join_addresses [] item.addresses)
                      ∷ codes "\" d=\""
                      ∷ show item.last_down
                      ∷ codes "\" u=\""
                      ∷ show item.last_up
                      ∷ codes "\""
                      ∷ [])
                  else [])
              ∷ codes ">"
              ∷ rows net_row samples
              ∷ codes "</item>"
              ∷ [])))

  unfoldable pub isr_network_data : Collector NetworkInfo → List Bytes → Outcome Added
  unfolding stat_of network_item
  isr_network_data stats = stat_of (codes "network") [] index stats network_item

  activity_row : Sample ActivityData → Bytes
  unfolding cat
  activity_row sample = cat (
      codes "<s id=\""
      ∷ show sample.sample_id
      ∷ codes "\" time=\""
      ∷ show_time sample.time
      ∷ codes "\" r=\""
      ∷ show_double sample.values.r
      ∷ codes "\" w=\""
      ∷ show_double sample.values.w
      ∷ codes "\"></s>"
      ∷ [])

  -- The mount points are written as they are, with no escapes.
  mounts_attribute : List Bytes → Bytes
  unfolding cat commas
  mounts_attribute mounts =
      if ltb 0 (length mounts)
      then cat (codes " mounts=\"" ∷ commas mounts ∷ codes "\"" ∷ [])
      else []

  activity_item : ActivityInfo → List Bytes → Outcome Added
  unfolding cat rows activity_row mounts_attribute if_added
  activity_item item added =
      if not item.active
      then skipped added
      else if_added index item.device keys added (do
        deque ← at_index item.samples index
        let samples = newer_samples (newer_long sample_id) deque
        done (
            cat (
              codes "<item uuid=\""
              ∷ encode_for_xml item.device
              ∷ codes "\" samples=\""
              ∷ show (length samples)
              ∷ codes "\""
              ∷ (if index == 0
                  then cat (
                      codes " name=\""
                      ∷ encode_for_xml item.display_name
                      ∷ codes "\" r=\""
                      ∷ show item.last_r
                      ∷ codes "\" w=\""
                      ∷ show item.last_w
                      ∷ codes "\" rio=\""
                      ∷ show item.last_riops
                      ∷ codes "\" wio=\""
                      ∷ show item.last_wiops
                      ∷ codes "\""
                      ∷ mounts_attribute item.mounts
                      ∷ [])
                  else [])
              ∷ codes ">"
              ∷ rows activity_row samples
              ∷ codes "</item>"
              ∷ [])))

  unfoldable pub isr_activity_data : Collector ActivityInfo → List Bytes → Outcome Added
  unfolding stat_of activity_item
  isr_activity_data stats = stat_of (codes "diskactivity") [] index stats activity_item

  disk_row : Sample DiskData → Bytes
  unfolding cat
  disk_row sample = cat (
      codes "<s id=\""
      ∷ show sample.sample_id
      ∷ codes "\" time=\""
      ∷ show_time sample.time
      ∷ codes "\" f=\""
      ∷ show_double sample.values.f
      ∷ codes "\" u=\""
      ∷ show_double sample.values.u
      ∷ codes "\" s=\""
      ∷ show_double sample.values.t
      ∷ codes "\" p=\""
      ∷ show_double sample.values.p
      ∷ codes "\"></s>"
      ∷ [])

  disk_item : DiskInfo → List Bytes → Outcome Added
  unfolding cat rows disk_row if_added
  disk_item item added =
      if not item.active
      then skipped added
      else if_added index item.key keys added (do
        deque ← at_index item.samples index
        let samples = newer_samples (newer_long sample_id) deque
        done (
            cat (
              codes "<item bsd=\""
              ∷ encode_for_xml item.key
              ∷ codes "\" uuid=\""
              ∷ item.uuid
              ∷ codes "\" name=\""
              ∷ encode_for_xml item.display_name
              ∷ codes "\" samples=\""
              ∷ show (length samples)
              ∷ codes "\">"
              ∷ rows disk_row samples
              ∷ codes "</item>"
              ∷ [])))

  unfoldable pub isr_disk_data : Collector DiskInfo → List Bytes → Outcome Added
  unfolding stat_of disk_item
  isr_disk_data stats = stat_of (codes "disks") [] index stats disk_item

  battery_item : BatteryInfo → List Bytes → Outcome Added
  unfolding cat if_added
  battery_item item added = if_added index item.key keys added (
      done (
        cat (
          codes "<item uuid=\""
          ∷ item.key
          ∷ codes "\" health=\""
          ∷ show_ℤ item.health
          ∷ codes "\" time=\""
          ∷ show_ℤ item.time_remaining
          ∷ codes "\" cycles=\""
          ∷ show_ℤ item.cycles
          ∷ codes "\" state=\""
          ∷ show_ℤ item.state
          ∷ codes "\" source=\""
          ∷ show_ℤ item.source
          ∷ codes "\" percentage=\""
          ∷ show_ℤ item.percentage
          ∷ codes "\">"
          ∷ codes "</item>"
          ∷ [])))

  unfoldable pub isr_battery_data : Collector BatteryInfo → List Bytes → Outcome Added
  unfolding stat_of battery_item
  isr_battery_data stats = stat_of (codes "battery") [] index stats battery_item
