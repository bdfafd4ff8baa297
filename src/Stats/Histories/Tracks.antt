-- ===== src/Stats/Histories/Tracks.antt =====
-- One interval of all items of a collector against the same interval of each item alone.
use istatserverlinux.Prelude.{
  ℕ, zero, suc, ◌+◌, ◌-◌, ◌*◌, ◌<◌, ◌≤◌, Bool, true, false, List, [], ◌∷◌, ◌++◌, ltb, if◌then◌else◌,
  get_or, length, ◌≡◌, ◌≢◌, refl, ap, ◌∙◌, arith, All, Bool-cases, inl, inr,
}
use istatserverlinux.Prelude.Outcome.{done}
use istatserverlinux.Text.{Bytes}
use istatserverlinux.Stats.{Sample}
use istatserverlinux.Stats.Schedule.{SampleIndex}
use istatserverlinux.Stats.History.{advance, push_sample, update_track, history_size}
use istatserverlinux.Stats.Items.{change_at}
use istatserverlinux.Stats.Histories.{
  Interval, deque, history_sample, sample_items, put_samples, update_interval,
}

module _ {V : Type 0} where
  get-change_at :
      (f : List (Sample V) → List (Sample V)) (x : ℕ) (samples : List (List (Sample V)))
      → x < length samples
      → get_or (change_at x f samples) x [] ≡ f (get_or samples x [])
  get-change_at f x [] h = absurd (omega (arith, h))
  get-change_at f zero (s ∷ samples) h = refl
  get-change_at f (suc x) (s ∷ samples) h = get-change_at f x samples (omega (arith, h))

  get-change_at_ne :
      (f : List (Sample V) → List (Sample V)) (x y : ℕ) (samples : List (List (Sample V)))
      → x ≢ y
      → get_or (change_at x f samples) y [] ≡ get_or samples y []
  get-change_at_ne f x y [] h = refl
  get-change_at_ne f zero zero (s ∷ samples) h = absurd (h refl)
  get-change_at_ne f zero (suc y) (s ∷ samples) h = refl
  get-change_at_ne f (suc x) zero (s ∷ samples) h = refl
  get-change_at_ne f (suc x) (suc y) (s ∷ samples) h =
      get-change_at_ne f x y samples (λ e. h (ap suc e))

  length-change_at :
      (f : List (Sample V) → List (Sample V)) (x : ℕ) (samples : List (List (Sample V)))
      → length (change_at x f samples) ≡ length samples
  length-change_at f x [] = refl
  length-change_at f zero (s ∷ samples) = refl
  length-change_at f (suc x) (s ∷ samples) = ap suc (length-change_at f x samples)

module _ {A V : Type 0} (samples_of : A → List (List (Sample V)))
    (with_samples : List (List (Sample V)) → A → A) (key_of : A → Bytes)
    (item : SampleIndex → List (Sample V) → V × Bool)
    (held : (samples : List (List (Sample V))) (a : A)
      → samples_of (with_samples samples a) ≡ samples) where
  abbrev at : ℕ → A → List (Sample V)
  at x a = deque samples_of with_samples key_of item x a

  -- `updateHistory` of a single series, from the samples of an item to those of the item behind it.
  abbrev pub IsUpdated : ℕ → ℕ → ℕ → SampleIndex → SampleIndex → A → A → Type 0
  IsUpdated fuel x now i j a b =
      (queue : List (Sample V))
      → (out : List (Sample V)) × (update_track item fuel now (at i.history_index a)
            (record { index = i; samples = at x a; queue = queue })
          ≡ done (record { index = j; samples = at x b; queue = out }))

  -- Each of the items to the one at its place.
  abbrev pub AreUpdated : ℕ → ℕ → ℕ → SampleIndex → SampleIndex → List A → List A → Type 0
  AreUpdated fuel x now i j [] [] = Unit
  AreUpdated fuel x now i j [] (b ∷ others) = ⊥
  AreUpdated fuel x now i j (a ∷ items) [] = ⊥
  AreUpdated fuel x now i j (a ∷ items) (b ∷ others) =
      IsUpdated fuel x now i j a b × AreUpdated fuel x now i j items others

  -- The items have a deque of the number x.
  abbrev pub HaveDeque : ℕ → List A → Type 0
  HaveDeque x = All (λ a. x < length (samples_of a))

  same_items :
      (fuel x now : ℕ) (i : SampleIndex) (items : List A)
      → ltb i.next_time now ≡ false
      → AreUpdated (suc fuel) x now i i items items
  unfolding update_track
  same_items fuel x now i [] e = tt
  same_items fuel x now i (a ∷ items) e =
      (λ queue. (queue, rw (e, update_track) refl), same_items fuel x now i items e)

  old_items :
      (fuel x now : ℕ) (i j : SampleIndex) (items others : List A)
      → ltb i.next_time now ≡ true
      → ltb ((advance i).time + history_size * (advance i).interval) now ≡ true
      → AreUpdated fuel x now (advance i) j items others
      → AreUpdated (suc fuel) x now i j items others
  unfolding update_track
  old_items fuel x now i j [] [] e g h = tt
  old_items fuel x now i j [] (b ∷ others) e g h = h
  old_items fuel x now i j (a ∷ items) [] e g h = h
  old_items fuel x now i j (a ∷ items) (b ∷ others) e g h = (
    λ queue. let (out, r) = h.0 queue in (out, rw (e, update_track, g) r),
    old_items fuel x now i j items others e g h.1,
  )

  -- One round over the items, and what the loop makes of the items behind it.
  new_items :
      (fuel x now : ℕ) (i j : SampleIndex) (items others : List A)
      → x ≢ i.history_index
      → HaveDeque x items
      → ltb i.next_time now ≡ true
      → ltb ((advance i).time + history_size * (advance i).interval) now ≡ false
      → AreUpdated fuel x now
          (advance i)
          j
          (sample_items samples_of with_samples key_of item x (advance i) items)
          others
      → AreUpdated (suc fuel) x now i j items others
  unfolding update_track sample_items
  new_items fuel x now i j [] [] n d e g h = tt
  new_items fuel x now i j [] (b ∷ others) n d e g h = h
  new_items fuel x now i j (a ∷ items) [] n d e g h = h
  new_items fuel x now i j (a ∷ items) (b ∷ others) n d e g h = (
    λ queue.
        let smp = history_sample samples_of with_samples key_of item (advance i) a in
        let made = change_at x (push_sample smp) (samples_of a) in
        let (out, r) =
          h.0 (if (item (advance i) (at i.history_index a)).1 then queue else queue ++ smp ∷ []) in
        let same_from : at i.history_index (with_samples made a) ≡ at i.history_index a =
          ap (λ ss. get_or ss i.history_index []) (held made a)
          ∙ get-change_at_ne (push_sample smp) x i.history_index (samples_of a) n in
        let pushed : at x (with_samples made a) ≡ push_sample smp (at x a) =
          ap (λ ss. get_or ss x []) (held made a)
          ∙ get-change_at (push_sample smp) x (samples_of a) d.0 in
        (out, rw (e, update_track, g) (rw (same_from, pushed) at r)),
    new_items fuel x now i j items others n d.1 e g h.1,
  )

  sample_items-HaveDeque :
      (x : ℕ) (i : SampleIndex) (items : List A)
      → HaveDeque x items
      → HaveDeque x (sample_items samples_of with_samples key_of item x i items)
  unfolding sample_items
  sample_items-HaveDeque x i [] h = tt
  sample_items-HaveDeque x i (a ∷ items) h =
      (rw (held, length-change_at) h.0, sample_items-HaveDeque x i items h.1)

  -- The loop of `updateHistory` over one interval of all items ends, where the fuel is more than the
  -- microseconds to catch up, the interval is above 0 and each item has the deque, at a next time not
  -- before now; and it leaves each item with the samples that the loop over a single series leaves.
  pub update_interval-AreUpdated :
      (fuel x now : ℕ) (s : Interval A V)
      → x ≢ s.index.history_index
      → HaveDeque x s.items
      → 0 < s.index.interval
      → now - s.index.next_time < fuel
      → (t : Interval A V) × (update_interval samples_of with_samples key_of item fuel x now s
          ≡ done t)
        × (now ≤ t.index.next_time)
        × AreUpdated fuel x now s.index t.index s.items t.items
  unfolding update_interval
  update_interval-AreUpdated zero x now s n d p h = absurd (omega (arith, h))
  update_interval-AreUpdated (suc fuel) x now s n d p h =
      elim (Bool-cases (ltb s.index.next_time now)) [
        | inr e ↦ (
          s,
          rw (e, update_interval) refl,
          ground (arith, e),
          same_items fuel x now s.index s.items e,
        )
        | inl e ↦
            let early : s.index.next_time < now = ground (arith, e) in
            let i = advance s.index in
            let enough : now - i.next_time < fuel = omega (arith, early, p, h) in
            elim (Bool-cases (ltb (i.time + history_size * i.interval) now)) [
              | inl old ↦
                  let (t, r, reached, updated) =
                    update_interval-AreUpdated fuel x now (record s { index = i }) n d p enough in
                  (
                    t,
                    rw (e, update_interval, old) r,
                    reached,
                    old_items fuel x now s.index t.index s.items t.items e old updated,
                  )
              | inr new ↦
                  let (t, r, reached, updated) =
                    update_interval-AreUpdated fuel x now
                      (put_samples samples_of with_samples key_of item x i s) n
                      (sample_items-HaveDeque x i s.items d) p enough in
                  (
                    t,
                    rw (e, update_interval, new) r,
                    reached,
                    new_items fuel x now s.index t.index s.items t.items n d e new updated,
                  )
            ]
      ]
