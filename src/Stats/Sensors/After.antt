-- ===== src/Stats/Sensors/After.antt =====
-- The sensors of src/stats/StatsSensors.cpp before and after a step.
pub mod Init
pub mod Pass
use istatserverlinux.Prelude.{
  ℕ, Bool, true, false, List, [], ◌∷◌, Option, none, some, if◌then◌else◌, ◌≡◌, refl, ◌∙◌,
  Bool-cases, if-cases, inl, inr,
}
use istatserverlinux.Prelude.Int.{ℤ}
use istatserverlinux.Text.{Bytes, str_eq, codes}
use istatserverlinux.Stats.{Floats, SensorInfo}
use istatserverlinux.Stats.Items.{has_key, change_all, change_first}
use istatserverlinux.Stats.Items.Keys.{AreKeyed, change_first-AreKeyed}
use istatserverlinux.Stats.Sensors.{
  Sensors, SensorTables, sensor_key, set_meta, create_sensor, add_sensor, record_value,
  process_sensor, relabel, init_qnap, update_qnap,
}

-- The index and the flag are the same, and distinct keys stay distinct.
pub record IsAfter (s t : Sensors) : Type 0 where
  pub index : t.index ≡ s.index
  pub ready : t.ready ≡ s.ready
  pub keyed : AreKeyed sensor_key s.items → AreKeyed sensor_key t.items

pub at_once : (s : Sensors) → IsAfter s s
at_once s = record { index = refl; ready = refl; keyed = λ h. h }

pub and_then : (s t u : Sensors) → IsAfter s t → IsAfter t u → IsAfter s u
and_then s t u h k = record {
  index = k.index ∙ h.index;
  ready = k.ready ∙ h.ready;
  keyed = λ keyed. k.keyed (h.keyed keyed);
}

-- Both branches of a test.
pub either_way :
    (s t u : Sensors) (b : Bool) → IsAfter s t → IsAfter s u → IsAfter s (if b then t else u)
either_way s t u b h k = if-cases (IsAfter s) b t u (λ e. h) (λ e. k)

module _ (f : SensorInfo → SensorInfo) (same : (a : SensorInfo) → (f a).key ≡ a.key) where
  has_key-change_all :
      (items : List SensorInfo) (key other : Bytes)
      → has_key sensor_key (change_all sensor_key f items key) other
        ≡ has_key sensor_key items other
  unfolding has_key change_all
  has_key-change_all [] key other = refl
  has_key-change_all (a ∷ items) key other = elim (Bool-cases (str_eq a.key key)) [
    | inl e ↦ rw (e, same a, has_key-change_all items key other) refl
    | inr e ↦ rw (e, has_key-change_all items key other) refl
  ]

  change_all-AreKeyed :
      (items : List SensorInfo) (key : Bytes)
      → AreKeyed sensor_key items
      → AreKeyed sensor_key (change_all sensor_key f items key)
  unfolding change_all
  change_all-AreKeyed [] key h = tt
  change_all-AreKeyed (a ∷ items) key h = elim (Bool-cases (str_eq a.key key)) [
    | inl e ↦
        rw e
          (rw (same a, has_key-change_all items key a.key) h.0, change_all-AreKeyed items key h.1)
    | inr e ↦ rw e (rw (has_key-change_all items key a.key) h.0, change_all-AreKeyed items key h.1)
  ]

  pub change_all-IsAfter :
      (s : Sensors) (key : Bytes)
      → IsAfter s (record s { items = change_all sensor_key f s.items key })
  change_all-IsAfter s key = record {
    index = refl;
    ready = refl;
    keyed = change_all-AreKeyed s.items key;
  }

  pub change_first-IsAfter :
      (s : Sensors) (key : Bytes)
      → IsAfter s (record s { items = change_first sensor_key f s.items key })
  change_first-IsAfter s key = record {
    index = refl;
    ready = refl;
    keyed = change_first-AreKeyed sensor_key f same s.items key;
  }

has_key-relabel :
    (items : List SensorInfo) (key : Bytes)
    → has_key sensor_key (relabel items) key ≡ has_key sensor_key items key
unfolding has_key relabel
has_key-relabel [] key = refl
has_key-relabel (a ∷ items) key = rw (has_key-relabel items key) refl

relabel-AreKeyed :
    (items : List SensorInfo) → AreKeyed sensor_key items → AreKeyed sensor_key (relabel items)
unfolding relabel
relabel-AreKeyed [] h = tt
relabel-AreKeyed (a ∷ items) h = (rw (has_key-relabel items a.key) h.0, relabel-AreKeyed items h.1)

module _ (db : SensorTables) where
  pub create_sensor-IsAfter : (key : Bytes) (s : Sensors) → IsAfter s (create_sensor db key s).0
  unfolding create_sensor
  create_sensor-IsAfter key s = elim (Bool-cases (has_key sensor_key s.items key)) [
    | inl e ↦ rw e (at_once s)
    | inr e ↦ rw e (record { index = refl; ready = refl; keyed = λ keyed. (e, keyed) })
  ]

  pub add_sensor-IsAfter :
      (key : Bytes) (method kind : ℕ) (label : Bytes) (s : Sensors)
      → IsAfter s (add_sensor db key method kind label s)
  unfolding add_sensor
  add_sensor-IsAfter key method kind label s =
      let (t, created) = create_sensor db key s in
      let made = create_sensor-IsAfter key s in
      either_way s _ t created
        (and_then s t _ made (change_all-IsAfter (set_meta method kind label) (λ a. refl) t key))
        made

  pub init_qnap-IsAfter : (temp : Option ℤ) (s : Sensors) → IsAfter s (init_qnap db temp s)
  unfolding init_qnap
  init_qnap-IsAfter none s = at_once s
  init_qnap-IsAfter (some temp) s =
      let t = (create_sensor db (codes "qnap") s).0 in
      and_then s t _ (create_sensor-IsAfter (codes "qnap") s)
        (record { index = refl; ready = refl; keyed = relabel-AreKeyed t.items })

pub process_sensor-IsAfter :
    (key : Bytes) (value : ℤ) (s : Sensors) → IsAfter s (process_sensor key value s)
unfolding process_sensor
process_sensor-IsAfter key value s =
    either_way s _ s s.ready (change_all-IsAfter (record_value s.index value) (λ a. refl) s key)
      (at_once s)

pub update_qnap-IsAfter :
    (f : Floats) (temp : Option ℤ) (s : Sensors) → IsAfter s (update_qnap f temp s)
unfolding update_qnap
update_qnap-IsAfter f none s = at_once s
update_qnap-IsAfter f (some temp) s = process_sensor-IsAfter (codes "qnap") (f.of_ll temp) s
