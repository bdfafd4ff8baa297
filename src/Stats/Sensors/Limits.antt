-- ===== src/Stats/Sensors/Limits.antt =====
-- The lowest and the highest value that src/stats/StatsSensors.cpp records of a sensor.
use istatserverlinux.Prelude.{
  Bool, true, false, List, [], ◌∷◌, some, if◌then◌else◌, ◌≡◌, refl, ap, ◌∙◌, All, if-cases, ◌||◌,
}
use istatserverlinux.Prelude.Int.{ℤ, ltb_ℤ, eqb_ℤ}
use istatserverlinux.Text.{Bytes}
use istatserverlinux.Stats.{SensorInfo}
use istatserverlinux.Stats.Items.{find_key}
use istatserverlinux.Stats.Items.Keys.{find_key-change_all}
use istatserverlinux.Stats.Sensors.{Sensors, sensor_key, minus_one, record_value, process_sensor}

-- The values of a sensor, one poll after the other.
abbrev pub process_all : Bytes → List ℤ → Sensors → Sensors
process_all key [] s = s
process_all key (v ∷ vs) s = process_all key vs (process_sensor key v s)

abbrev pub lowest_of : ℤ → List ℤ → ℤ
lowest_of low [] = low
lowest_of low (v ∷ vs) = lowest_of (if ltb_ℤ v low then v else low) vs

abbrev pub highest_of : ℤ → List ℤ → ℤ
highest_of high [] = high
highest_of high (v ∷ vs) = highest_of (if ltb_ℤ high v then v else high) vs

-- No value is the -1 that stands for none.
abbrev pub AreClear : List ℤ → Type 0
AreClear = All (λ v. eqb_ℤ v minus_one ≡ false)

process_sensor_known :
    (key : Bytes) (v : ℤ) (s : Sensors) (item : SensorInfo)
    → s.ready ≡ true
    → find_key sensor_key s.items key ≡ some item
    → ((process_sensor key v s).ready ≡ true)
      × ((process_sensor key v s).index ≡ s.index)
      × (find_key sensor_key (process_sensor key v s).items key
          ≡ some (record_value s.index v item))
unfolding process_sensor
process_sensor_known key v s item r h = rw r (
  refl,
  refl,
  find_key-change_all sensor_key (record_value s.index v) (λ a. refl) s.items key item h,
)

either : (b c : Bool) (v l : ℤ) → c ≡ false → (if b || c then v else l) ≡ (if b then v else l)
either true c v l h = refl
either false c v l h = rw h refl

or_true : (b : Bool) (v l : ℤ) → (if b || true then v else l) ≡ v
or_true true v l = refl
or_true false v l = refl

-- With a lowest value recorded.
process_all_known :
    (key : Bytes) (vs : List ℤ) (s : Sensors) (item : SensorInfo)
    → s.ready ≡ true
    → find_key sensor_key s.items key ≡ some item
    → eqb_ℤ item.lowest_value minus_one ≡ false
    → AreClear vs
    → (out : SensorInfo) × (find_key sensor_key (process_all key vs s).items key ≡ some out)
      × (out.lowest_value ≡ lowest_of item.lowest_value vs)
      × (out.highest_value ≡ highest_of item.highest_value vs)
process_all_known key [] s item r h c a = (item, h, refl, refl)
process_all_known key (v ∷ vs) s item r h c a =
    let (ready, index, found) = process_sensor_known key v s item r h in
    let next = record_value s.index v item in
    let low : next.lowest_value ≡ (if ltb_ℤ v item.lowest_value then v else item.lowest_value) =
      either (ltb_ℤ v item.lowest_value) (eqb_ℤ item.lowest_value minus_one) v item.lowest_value
        c in
    let clear : eqb_ℤ next.lowest_value minus_one ≡ false = rw low (
      if-cases (λ x. eqb_ℤ x minus_one ≡ false) (ltb_ℤ v item.lowest_value) v item.lowest_value
        (λ e. a.0) (λ e. c)) in
    let (out, f, l, g) =
      process_all_known key vs (process_sensor key v s) next ready found clear a.1 in
    (out, f, l ∙ ap (λ x. lowest_of x vs) low, g)

-- Where a sensor starts with no lowest value and none of its values is -1, its lowest value after any
-- number of polls is the smallest of them, and its highest the largest of them and of the highest
-- value that it started with.
pub process_all-limits :
    (key : Bytes) (v : ℤ) (vs : List ℤ) (s : Sensors) (item : SensorInfo)
    → s.ready ≡ true
    → find_key sensor_key s.items key ≡ some item
    → item.lowest_value ≡ minus_one
    → AreClear (v ∷ vs)
    → (out : SensorInfo) × (find_key sensor_key (process_all key (v ∷ vs) s).items key ≡ some out)
      × (out.lowest_value ≡ lowest_of v vs)
      × (out.highest_value ≡ highest_of item.highest_value (v ∷ vs))
process_all-limits key v vs s item r h n a =
    let (ready, index, found) = process_sensor_known key v s item r h in
    let next = record_value s.index v item in
    let none_yet : eqb_ℤ item.lowest_value minus_one ≡ true = rw n refl in
    let low : next.lowest_value ≡ v =
      rw none_yet (or_true (ltb_ℤ v item.lowest_value) v item.lowest_value) in
    let (out, f, l, g) =
      process_all_known key vs (process_sensor key v s) next ready found (rw low a.0) a.1 in
    (out, f, l ∙ ap (λ x. lowest_of x vs) low, g)

-- A value of -1 is not kept as the lowest one: the next value takes its place.
forgotten_low :
    (key : Bytes) (v : ℤ) (s : Sensors) (item : SensorInfo)
    → s.ready ≡ true
    → find_key sensor_key s.items key ≡ some item
    → item.lowest_value ≡ minus_one
    → (out : SensorInfo) × (find_key sensor_key (process_all key (minus_one ∷ v ∷ []) s).items key
        ≡ some out)
      × (out.lowest_value ≡ v)
forgotten_low key v s item r h n =
    let (ready, index, found) = process_sensor_known key minus_one s item r h in
    let next = record_value s.index minus_one item in
    let (ready_too, index_too, again) =
      process_sensor_known key v (process_sensor key minus_one s) next ready found in
    let low : next.lowest_value ≡ minus_one = rw n refl in
    let none_yet : eqb_ℤ next.lowest_value minus_one ≡ true = rw low refl in
    (
      record_value (process_sensor key minus_one s).index v next,
      again,
      rw none_yet (or_true (ltb_ℤ v next.lowest_value) v next.lowest_value),
    )
