-- ===== src/Stats/History/Kept.antt =====
-- What the collectors keep of their samples in src/stats.
use istatserverlinux.Prelude.{
  ℕ, zero, suc, ◌+◌, ◌-◌, ◌*◌, ◌≤◌, ◌<◌, Bool, List, [], ◌∷◌, ◌≡◌, refl, arith, ltb, length, take,
  length-take, All, All-take, Bool-cases, inl, inr, if-cases,
}
use istatserverlinux.Prelude.Outcome.{done}
use istatserverlinux.Stats.{Sample}
use istatserverlinux.Stats.Schedule.{SampleIndex, prepare_update}
use istatserverlinux.Stats.History.{
  Track, history_size, push_sample, add_sample, advance, put_sample, update_track,
}
use istatserverlinux.Responses.Samples.Newest.{IsNewestFirst}

module _ {V : Type 0} where
  -- At most HISTORY_SIZE samples, with falling numbers, none above the last number given out.
  pub record IsKept (t : Track V) : Type 0 where
    pub newest_first : IsNewestFirst t.samples
    pub numbered : All (λ s. s.sample_id ≤ t.index.sample_id) t.samples
    pub short : length t.samples ≤ history_size

  IsNewestFirst-take :
      (n : ℕ) (samples : List (Sample V)) → IsNewestFirst samples → IsNewestFirst (take n samples)
  IsNewestFirst-take zero samples h = tt
  IsNewestFirst-take (suc n) [] h = tt
  IsNewestFirst-take (suc n) (s ∷ samples) h =
      (All-take (λ t. t.sample_id < s.sample_id) n samples h.0, IsNewestFirst-take n samples h.1)

  numbered_below :
      (m n : ℕ) (samples : List (Sample V))
      → m < n
      → All (λ s. s.sample_id ≤ m) samples
      → All (λ s. s.sample_id < n) samples
  numbered_below m n [] h a = tt
  numbered_below m n (s ∷ samples) h a = (omega (arith, h, a.0), numbered_below m n samples h a.1)

  numbered_up :
      (m n : ℕ) (samples : List (Sample V))
      → m ≤ n
      → All (λ s. s.sample_id ≤ m) samples
      → All (λ s. s.sample_id ≤ n) samples
  numbered_up m n [] h a = tt
  numbered_up m n (s ∷ samples) h a = (omega (arith, h, a.0), numbered_up m n samples h a.1)

  push_sample-IsKept :
      (t : Track V) (i : SampleIndex) (sample : Sample V) (queue : List (Sample V))
      → IsKept t
      → t.index.sample_id < i.sample_id
      → sample.sample_id ≡ i.sample_id
      → IsKept (record { index = i; samples = push_sample sample t.samples; queue = queue })
  unfolding push_sample
  push_sample-IsKept t i sample queue k above same = record {
    newest_first =
        if-cases IsNewestFirst (ltb history_size (length pushed)) _ _
          (λ _. IsNewestFirst-take (length pushed - 1) pushed first) (λ _. first);
    numbered =
        if-cases (All (λ s. s.sample_id ≤ i.sample_id)) (ltb history_size (length pushed)) _ _
          (λ _. All-take (λ s. s.sample_id ≤ i.sample_id) (length pushed - 1) pushed below)
          (λ _. below);
    short =
        if-cases (λ l. length l ≤ history_size) (ltb history_size (length pushed))
          (take (length pushed - 1) pushed) pushed
          (λ _. omega (arith, length-take (length pushed - 1) pushed, k.short))
          (λ e. ground (arith, e));
  }
    where
      pushed : List (Sample V)
      pushed = sample ∷ t.samples

      first : IsNewestFirst pushed
      first = (
        numbered_below t.index.sample_id sample.sample_id t.samples (omega (arith, above, same))
            k.numbered,
        k.newest_first,
      )

      below : All (λ s. s.sample_id ≤ i.sample_id) pushed
      below = (
        omega (arith, same),
        numbered_up t.index.sample_id i.sample_id t.samples (omega (arith, above)) k.numbered,
      )

  -- `prepareUpdate` and then `addSample` keep a track in order, with the new sample in front.
  pub add_sample-IsKept :
      (t : Track V) (values : V)
      → IsKept t
      → IsKept (add_sample values (record t { index = prepare_update t.index }))
  add_sample-IsKept t values k =
      push_sample-IsKept t (prepare_update t.index) _ t.queue k (omega arith) refl

  module _ (item : SampleIndex → List (Sample V) → V × Bool) where
    -- For a track of at most 600 samples, the newest first, with an interval above 0, and with more
    -- rounds than microseconds to catch up, the loop of `updateHistory` over one interval ends, on a
    -- track that is so again, with its next time not before now.
    pub update_track-IsKept :
        (fuel now : ℕ) (from : List (Sample V)) (t : Track V)
        → IsKept t
        → 0 < t.index.interval
        → now - t.index.next_time < fuel
        → (u : Track V) × (update_track item fuel now from t ≡ done u)
          × IsKept u
          × (now ≤ u.index.next_time)
    unfolding update_track
    update_track-IsKept zero now from t k p h = absurd (omega arith)
    update_track-IsKept (suc fuel) now from t k p h =
        elim (Bool-cases (ltb t.index.next_time now)) [
          | inr e ↦ (t, rw (e, update_track) refl, k, ground (arith, e))
          | inl e ↦
              let early : t.index.next_time < now = ground (arith, e) in
              let i = advance t.index in
              let enough : now - i.next_time < fuel = omega (arith, early, p, h) in
              elim (Bool-cases (ltb (i.time + history_size * i.interval) now)) [
                | inl old ↦
                    let (u, r, kept, reached) =
                      update_track-IsKept fuel now from (record t { index = i })
                        (record {
                          newest_first = k.newest_first;
                          numbered =
                              numbered_up t.index.sample_id i.sample_id t.samples (omega arith)
                                k.numbered;
                          short = k.short;
                        })
                        p enough in
                    (u, rw (e, update_track, old) r, kept, reached)
                | inr new ↦
                    let (u, r, kept, reached) =
                      update_track-IsKept fuel now from (put_sample t i (item i from))
                        (push_sample-IsKept t i _ _ k (omega arith) refl) p enough in
                    (u, rw (e, update_track, new) r, kept, reached)
              ]
        ]
