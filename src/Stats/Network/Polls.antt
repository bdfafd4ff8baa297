-- ===== src/Stats/Network/Polls.antt =====
-- Two readings of the counters of one interface of src/stats/StatsNetwork.cpp.
use istatserverlinux.Prelude.{
  ℕ, suc, ◌+◌, ◌-◌, ◌%◌, ◌^◌, true, false, List, [], ◌∷◌, Option, none, some, ◌==◌, if◌then◌else◌,
  length, get_elem?, ltb, ◌<◌, ◌||◌, ◌≡◌, refl, arith, Bool-cases, inl, inr,
}
use istatserverlinux.Text.{Bytes, codes, str_eq}
use istatserverlinux.Stats.{Floats, Sample, NetData, NetworkInfo}
use istatserverlinux.Stats.Items.{has_key, find_key, change_first, change_at, since}
use istatserverlinux.Stats.Items.Keys.{
  AreKeyed, change_first-AreKeyed, find_key-change_first, find_key-change_first_ne,
  find_key-has_key,
}
use istatserverlinux.Stats.Schedule.{prepare_update}
use istatserverlinux.Stats.History.{push_sample, history_size}
use istatserverlinux.Stats.Network.{
  Network, device_of, ignored_interface, create_interface, count_interface, process_interface,
  passivate, prepare_network,
}

push_sample-head :
    {V : Type 0} (s : Sample V) (samples : List (Sample V))
    → get_elem? (push_sample s samples) 0 ≡ some s
unfolding push_sample
push_sample-head s [] = refl
push_sample-head s (t ∷ samples) = elim (Bool-cases (ltb history_size (length (s ∷ t ∷ samples)))) [
  | inl e ↦
      let two : length (s ∷ t ∷ samples) - 1 ≡ suc (length samples) = omega arith in
      rw (e, two) refl
  | inr e ↦ rw e refl
]

-- The newest sample of the shortest interval.
abbrev pub newest : List (List (Sample NetData)) → Option (Sample NetData)
newest [] = none
newest (samples ∷ rest) = get_elem? samples 0

newest-change_at :
    (s : Sample NetData) (samples : List (List (Sample NetData)))
    → 0 < length samples
    → newest (change_at 0 (push_sample s) samples) ≡ some s
newest-change_at s [] h = absurd (omega (arith, h))
newest-change_at s (first ∷ rest) h = push_sample-head s first

length-change_at :
    (f : List (Sample NetData) → List (Sample NetData)) (samples : List (List (Sample NetData)))
    → length (change_at 0 f samples) ≡ length samples
length-change_at f [] = refl
length-change_at f (first ∷ rest) = refl

abbrev rested : NetworkInfo → NetworkInfo
rested item = record item { active = false }

find_key-passivate :
    (items : List NetworkInfo) (key : Bytes) (item : NetworkInfo)
    → find_key device_of items key ≡ some item
    → find_key device_of (passivate items) key ≡ some (rested item)
unfolding find_key
find_key-passivate [] key item h = cc
find_key-passivate (a ∷ items) key item h = elim (Bool-cases (str_eq a.device key)) [
  | inl e ↦ let this : some a ≡ some item = rw e at h in rw e (ground (arith, this))
  | inr e ↦ rw e (find_key-passivate items key item (rw e at h))
]

has_key-passivate :
    (items : List NetworkInfo) (key : Bytes)
    → has_key device_of (passivate items) key ≡ has_key device_of items key
unfolding has_key
has_key-passivate [] key = refl
has_key-passivate (a ∷ items) key = rw (has_key-passivate items key) refl

passivate-AreKeyed :
    (items : List NetworkInfo) → AreKeyed device_of items → AreKeyed device_of (passivate items)
passivate-AreKeyed [] h = tt
passivate-AreKeyed (a ∷ items) h =
    (rw (has_key-passivate items a.device) h.0, passivate-AreKeyed items h.1)

-- The interface has been read with these values, and the others are as they were.
pub record IsPolled (key : Bytes) (values : NetData) (s t : Network) : Type 0 where
  pub item : NetworkInfo
  pub found : find_key device_of t.items key ≡ some item
  pub active : item.active ≡ true
  pub sampled :
      newest item.samples
      ≡ some (record { sample_id = s.index.sample_id; time = s.index.time; values = values })
  pub others :
      (other : Bytes)
      → str_eq key other ≡ false
      → find_key device_of t.items other ≡ find_key device_of s.items other
  pub keyed : AreKeyed device_of t.items

module _ (addresses : List NetworkInfo → List NetworkInfo)
    (rows : Bytes → ℕ → List (Sample NetData)) where
  create_interface_known :
      (key : Bytes) (s : Network)
      → has_key device_of s.items key ≡ true
      → create_interface addresses rows key s ≡ s
  unfolding create_interface
  create_interface_known key s h =
      elim (Bool-cases (str_eq key (codes "lo") || str_eq key (codes "lo0"))) [
        | inl e ↦ rw e refl
        | inr e ↦ rw (e, h) refl
      ]

  module _ (f : Floats) where
    -- The reading of an interface that is known: it is counted, and the others stay.
    process_interface_known :
        (key : Bytes) (upload download : ℕ) (s : Network) (item : NetworkInfo)
        → ignored_interface key ≡ false
        → s.ready ≡ true
        → find_key device_of s.items key ≡ some item
        → process_interface addresses rows f key upload download s ≡ record s {
          items = change_first device_of (count_interface f s.index upload download) s.items key;
        }
    unfolding process_interface
    process_interface_known key upload download s item i r k =
        let known = create_interface_known key s (find_key-has_key device_of s.items key item k) in
        rw (i, known, r) refl

    counted-IsPolled :
        (key : Bytes) (upload download : ℕ) (t : Network) (item : NetworkInfo)
        → ignored_interface key ≡ false
        → t.ready ≡ true
        → AreKeyed device_of t.items
        → find_key device_of t.items key ≡ some item
        → 0 < length item.samples
        → IsPolled key
            (record {
              d = f.of_ull (since item.last_down download);
              u = f.of_ull (since item.last_up upload);
            })
            t
            (process_interface addresses rows f key upload download t)
    counted-IsPolled key upload download t item i r k h l =
        let count = count_interface f t.index upload download in
        let same : (a : NetworkInfo) → (count a).device ≡ a.device = λ a. refl in
        rw (process_interface_known key upload download t item i r h) (record {
          item = count item;
          found = find_key-change_first device_of count same t.items key item h;
          active = refl;
          sampled = newest-change_at _ item.samples l;
          others = find_key-change_first_ne device_of count same t.items key;
          keyed = change_first-AreKeyed device_of count same t.items key k;
        })

    -- Two polls of an interface that is known, with `prepareUpdate` between them: the interface is
    -- active and has a sample in front with the number and the time of the second poll, whose values
    -- are what each counter has gone up by between the polls, modulo 2 ^ 64, or 0 where the counter
    -- was 0 at the first poll. All other interfaces are as they were before the second poll, and the
    -- names are still distinct.
    pub polls-IsPolled :
        (key : Bytes) (up down upload download : ℕ) (s : Network) (item : NetworkInfo)
        → ignored_interface key ≡ false
        → s.ready ≡ true
        → AreKeyed device_of s.items
        → find_key device_of s.items key ≡ some item
        → 0 < length item.samples
        → let t = prepare_network (process_interface addresses rows f key up down s) in
          IsPolled key
            (record {
              d = f.of_ull (if down == 0 then 0 else (download + 2 ^ 64 - down) % 2 ^ 64);
              u = f.of_ull (if up == 0 then 0 else (upload + 2 ^ 64 - up) % 2 ^ 64);
            })
            t
            (process_interface addresses rows f key upload download t)
    unfolding prepare_network
    polls-IsPolled key up down upload download s item i r k h l =
        let count = count_interface f s.index up down in
        let same : (a : NetworkInfo) → (count a).device ≡ a.device = λ a. refl in
        let items = change_first device_of count s.items key in
        let t : Network = record s { index = prepare_update s.index; items = passivate items } in
        let ran : prepare_network (process_interface addresses rows f key up down s) ≡ t =
          rw (process_interface_known key up down s item i r h, r) refl in
        rw ran (
          counted-IsPolled key upload download t (rested (count item)) i r
            (passivate-AreKeyed items (change_first-AreKeyed device_of count same s.items key k))
            (find_key-passivate items key (count item)
              (find_key-change_first device_of count same s.items key item h))
            (rw (length-change_at _ item.samples) l))
