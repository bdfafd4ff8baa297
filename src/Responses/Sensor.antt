-- ===== src/Responses/Sensor.antt =====
-- `isr_sensor_data`, `isr_gpu_data` and `gpuSensorUnit` of src/Responses.cpp.
use istatserverlinux.Prelude.{
  ℕ, ◌+◌, Bool, true, false, not, ◌&&◌, ◌||◌, List, [], ◌∷◌, Option, none, some, if◌then◌else◌,
  length, ltb, leb,
}
use istatserverlinux.Prelude.Int.{ℤ, pos, eqb_ℤ}
use istatserverlinux.Prelude.Outcome.{Outcome, done, ◌>>=◌}
use istatserverlinux.Text.{Bytes, codes, find}
use istatserverlinux.Text.Number.{show, show_ℤ}
use istatserverlinux.Stats.{Standard, Sample, Collector, SensorInfo}
use istatserverlinux.Responses.Escape.{encode_for_xml}
use istatserverlinux.Responses.Samples.{newer_long, newer_samples, at_index, show_time, cat, rows}
use istatserverlinux.Responses.Item.{Added, stat_of, if_added, skipped}

-- tolower of each byte, in the C locale.
unfoldable pub lower_byte : ℕ → ℕ
lower_byte c = if leb b'A' c && leb c b'Z' then c + 32 else c

unfoldable pub lower_copy : Bytes → Bytes
unfolding lower_byte
lower_copy [] = []
lower_copy (c ∷ s) = lower_byte c ∷ lower_copy s

abbrev is_found : Option ℕ → Bool
is_found none = false
is_found (some i) = true

-- value.find(word) != npos
abbrev pub contains : Bytes → Bytes → Bool
contains value word = is_found (find word value)

unfoldable pub gpu_sensor_unit : SensorInfo → Bytes
unfolding lower_copy find
gpu_sensor_unit item =
    let key = lower_copy item.key in
    let label = lower_copy item.label in
    if (contains key (codes "memory") || contains label (codes "memory"))
      && (contains key (codes "byte")
          || contains label (codes "byte")
          || contains key (codes "gpu")
          || contains label (codes "gpu"))
    then codes "bytes"
    else if eqb_ℤ item.kind (pos 6)
    then codes "percent"
    else if eqb_ℤ item.kind (pos 8)
    then codes "mhz"
    else if eqb_ℤ item.kind (pos 5)
    then codes "watts"
    else if eqb_ℤ item.kind (pos 2)
    then codes "rpm"
    else if eqb_ℤ item.kind (pos 0)
    then codes "degrees"
    else []

-- A sensor of a kind that only the GPU reply carries.
unfoldable pub gpu_only_unit : SensorInfo → Bool
unfolding lower_copy find
gpu_only_unit item =
    let key = lower_copy item.key in
    let label = lower_copy item.label in
    (eqb_ℤ item.kind (pos 6) || eqb_ℤ item.kind (pos 7))
    && (contains key (codes "gpu")
        || contains key (codes "agx")
        || contains key (codes "mali")
        || contains label (codes "gpu")
        || contains label (codes "graphics"))

-- A sensor of the GPU, by its names.
unfoldable pub is_gpu_sensor : SensorInfo → Bool
unfolding lower_copy find
is_gpu_sensor item =
    let key = lower_copy item.key in
    let label = lower_copy item.label in
    contains key (codes "gpu")
    || contains key (codes "mali")
    || contains key (codes "agx")
    || contains label (codes "gpu")
    || contains label (codes "mali")
    || contains label (codes "graphics")

module _ (standard : Standard) (index : ℕ) (sample_id : ℤ) (keys : List Bytes) where
  open standard use {show_double}

  sensor_row : Sample ℤ → Bytes
  unfolding cat
  sensor_row sample = cat (
      codes "<s id=\""
      ∷ show sample.sample_id
      ∷ codes "\" time=\""
      ∷ show_time sample.time
      ∷ codes "\" v=\""
      ∷ show_double sample.values
      ∷ codes "\"></s>"
      ∷ [])

  -- The item of either reply; `tail` is what stands behind the attribute `samples`.
  sensor_text : SensorInfo → Bytes → Outcome Bytes
  unfolding cat rows sensor_row
  sensor_text item tail = do
    deque ← at_index item.samples index
    let samples = newer_samples (newer_long sample_id) deque
    done (
        cat (
          codes "<item low=\""
          ∷ show_double item.lowest_value
          ∷ codes "\" high=\""
          ∷ show_double item.highest_value
          ∷ codes "\" uuid=\""
          ∷ encode_for_xml item.key
          ∷ codes "\" key=\""
          ∷ encode_for_xml item.key
          ∷ codes "\" name=\""
          ∷ encode_for_xml item.label
          ∷ codes "\" type=\""
          ∷ show_ℤ item.kind
          ∷ codes "\" samples=\""
          ∷ show (length samples)
          ∷ codes "\""
          ∷ tail
          ∷ codes ">"
          ∷ rows sensor_row samples
          ∷ codes "</item>"
          ∷ []))

  sensor_item : SensorInfo → List Bytes → Outcome Added
  unfolding sensor_text if_added
  sensor_item item added =
      if gpu_only_unit item
      then skipped added
      else if_added index item.key keys added (sensor_text item [])

  unfoldable pub isr_sensor_data : Collector SensorInfo → List Bytes → Outcome Added
  unfolding stat_of sensor_item
  isr_sensor_data stats = stat_of (codes "sensors") (codes " partial=\"1\"") index stats sensor_item

  unit_attribute : Bytes → Bytes
  unfolding cat
  unit_attribute unit =
      if ltb 0 (length unit)
      then cat (codes " unit=\"" ∷ encode_for_xml unit ∷ codes "\"" ∷ [])
      else []

  gpu_item : SensorInfo → List Bytes → Outcome Added
  unfolding sensor_text unit_attribute if_added
  gpu_item item added =
      if not (is_gpu_sensor item)
      then skipped added
      else if_added index item.key keys added
          (sensor_text item (unit_attribute (gpu_sensor_unit item)))

  unfoldable pub isr_gpu_data : Collector SensorInfo → List Bytes → Outcome Added
  unfolding stat_of gpu_item
  isr_gpu_data stats = stat_of (codes "gpu") (codes " partial=\"1\"") index stats gpu_item
