-- ===== src/Text/Trim/Edges.antt =====
-- What `trim` of src/Utility.cpp takes off a text.
use istatserverlinux.Prelude.{
  ℕ, suc, true, false, [], ◌∷◌, ◌++◌, none, some, ◌≡◌, refl, sym, ap, ◌∙◌, ◌⊎◌, inl, inr, arith,
  length, take, drop, drop-full, All, Bool-cases, length-append, subst, append_assoc, append-nil,
}
use istatserverlinux.Text.{Bytes}
use istatserverlinux.Text.Trim.{
  one_of, find_first_not_of, find_last_not_of, trim, cut_behind, cut_before,
}

module _ (delim : Bytes) where
  -- All bytes are of the set.
  abbrev pub AreDelims : Bytes → Type 0
  AreDelims = All (λ c. one_of delim c ≡ true)

  -- The text is empty, or begins and ends with a byte that is not of the set.
  abbrev pub HasBareEnds : Bytes → Type 0
  HasBareEnds s =
      (s ≡ [])
      ⊎ ((c : ℕ) × (t : Bytes) × (s ≡ c ∷ t) × (one_of delim c ≡ false))
        × ((t : Bytes) × (c : ℕ) × (s ≡ t ++ c ∷ []) × (one_of delim c ≡ false))

  record Split (s : Bytes) : Type 0 where
    front : Bytes
    byte : ℕ
    back : Bytes
    split_is : s ≡ front ++ byte ∷ back
    bare : one_of delim byte ≡ false

  find_last_not_of_lem :
      (s : Bytes)
      → (find_last_not_of delim s ≡ none) × AreDelims s
        ⊎ ((p : Split s) × (find_last_not_of delim s ≡ some (length p.front)) × AreDelims p.back)
  unfolding find_last_not_of
  find_last_not_of_lem [] = inl (refl, tt)
  find_last_not_of_lem (c ∷ s) = elim (find_last_not_of_lem s) [
    | inr (p, e, b) ↦ inr (
      record {
        front = c ∷ p.front;
        byte = p.byte;
        back = p.back;
        split_is = ap (◌∷◌ c) p.split_is;
        bare = p.bare;
      },
      rw e refl,
      b,
    )
    | inl (e, a) ↦ elim (Bool-cases (one_of delim c)) [
      | inl d ↦ inl (rw (e, d) refl, (d, a))
      | inr d ↦
          inr (
            record { front = []; byte = c; back = s; split_is = refl; bare = d },
            rw (e, d) refl,
            a,
          )
    ]
  ]

  find_first_not_of_lem :
      (s : Bytes)
      → (find_first_not_of delim s ≡ none) × AreDelims s
        ⊎ ((p : Split s) × (find_first_not_of delim s ≡ some (length p.front)) × AreDelims p.front)
  unfolding find_first_not_of
  find_first_not_of_lem [] = inl (refl, tt)
  find_first_not_of_lem (c ∷ s) = elim (Bool-cases (one_of delim c)) [
    | inr d ↦
        inr (record { front = []; byte = c; back = s; split_is = refl; bare = d }, rw d refl, tt)
    | inl d ↦ elim (find_first_not_of_lem s) [
      | inl (e, a) ↦ inl (rw (d, e) refl, (d, a))
      | inr (p, e, f) ↦ inr (
        record {
          front = c ∷ p.front;
          byte = p.byte;
          back = p.back;
          split_is = ap (◌∷◌ c) p.split_is;
          bare = p.bare;
        },
        rw (d, e) refl,
        (d, f),
      )
    ]
  ]

  take-front :
      (front back : Bytes) (c : ℕ) → take (suc (length front)) (front ++ c ∷ back) ≡ front ++ c ∷ []
  take-front [] back c = refl
  take-front (d ∷ front) back c = ap (◌∷◌ d) (take-front front back c)

  -- A suffix that is not empty has the last byte.
  last_of_suffix :
      (s front back : Bytes) (c d : ℕ)
      → s ++ c ∷ [] ≡ front ++ d ∷ back
      → (t : Bytes) × (d ∷ back ≡ t ++ c ∷ [])
  last_of_suffix s [] back c d e = (s, sym e)
  last_of_suffix [] (f ∷ front) back c d e =
      absurd (omega (arith, ap length e, length-append front (d ∷ back)))
  last_of_suffix (x ∷ s) (f ∷ front) back c d e = last_of_suffix s front back c d cc

  AreDelims-bare :
      (front back : Bytes) (c : ℕ) → AreDelims (front ++ c ∷ back) → one_of delim c ≡ false → ⊥
  AreDelims-bare [] back c h b = cc (h.0)
  AreDelims-bare (f ∷ front) back c h b = AreDelims-bare front back c h.1 b

  -- What is left once the end is cut.
  cut_behind_lem :
      (s : Bytes)
      → AreDelims s × (cut_behind s (find_last_not_of delim s) ≡ s)
        ⊎ ((p : Split s) × AreDelims p.back
            × (cut_behind s (find_last_not_of delim s) ≡ p.front ++ p.byte ∷ []))
  cut_behind_lem s = elim (find_last_not_of_lem s) [
    | inl (e, a) ↦ inl (a, rw e refl)
    | inr (p, e, b) ↦ inr (
      p,
      b,
      rw e (ap (take (suc (length p.front))) p.split_is ∙ take-front p.front p.back p.byte),
    )
  ]

  cut_before_lem :
      (s : Bytes)
      → AreDelims s × (cut_before s (find_first_not_of delim s) ≡ [])
        ⊎ ((p : Split s) × AreDelims p.front
            × (cut_before s (find_first_not_of delim s) ≡ p.byte ∷ p.back))
  cut_before_lem s = elim (find_first_not_of_lem s) [
    | inl (e, a) ↦ inl (a, rw e refl)
    | inr (p, e, b) ↦
        inr
          (p, b, rw e (ap (drop (length p.front)) p.split_is ∙ drop-full p.front (p.byte ∷ p.back)))
  ]

  -- `r` is the source with bytes of the set taken off both ends.
  abbrev pub IsTrimmed : Bytes → Bytes → Type 0
  IsTrimmed source r =
      (front : Bytes) × (back : Bytes) × (source ≡ front ++ (r ++ back))
      × AreDelims front
      × AreDelims back
      × HasBareEnds r

  -- Both ends are cut from a source that has a byte outside of the set.
  both_cut :
      (source middle r : Bytes) (p : Split source) (q : Split middle)
      → middle ≡ p.front ++ p.byte ∷ []
      → r ≡ q.byte ∷ q.back
      → AreDelims p.back
      → AreDelims q.front
      → IsTrimmed source r
  both_cut source middle r p q m e b f =
      let (t, last) = last_of_suffix p.front q.front q.back p.byte q.byte (sym m ∙ q.split_is) in
      (
        q.front,
        p.back,
        p.split_is
            ∙ sym (append_assoc p.front (p.byte ∷ []) p.back)
            ∙ ap (λ x. x ++ p.back) (sym m ∙ q.split_is)
            ∙ append_assoc q.front (q.byte ∷ q.back) p.back
            ∙ ap (λ x. q.front ++ (x ++ p.back)) (sym e),
        f,
        b,
        inr ((q.byte, q.back, e, q.bare), (t, p.byte, e ∙ last, p.bare)),
      )

  cut_both :
      (source middle : Bytes)
      → AreDelims source × (middle ≡ source)
        ⊎ ((p : Split source) × AreDelims p.back × (middle ≡ p.front ++ p.byte ∷ []))
      → IsTrimmed source (cut_before middle (find_first_not_of delim middle))
  cut_both source middle (inl (a, m)) = elim (cut_before_lem middle) [
    | inl (d, e) ↦ (source, [], rw e (sym (append-nil source)), a, tt, inl e)
    | inr (q, f, e) ↦
        absurd
          (AreDelims-bare q.front q.back q.byte (subst AreDelims (sym m ∙ q.split_is) a) q.bare)
  ]
  cut_both source middle (inr (p, b, m)) = elim (cut_before_lem middle) [
    | inl (d, e) ↦ absurd (AreDelims-bare p.front [] p.byte (subst AreDelims m d) p.bare)
    | inr (q, f, e) ↦ both_cut source middle _ p q m e b f
  ]

  -- `trim` takes bytes of the set off both ends, and leaves a text that is empty or has other bytes
  -- at its ends.
  pub trim-IsTrimmed : (source : Bytes) → IsTrimmed source (trim source delim)
  unfolding trim
  trim-IsTrimmed source = cut_both source _ (cut_behind_lem source)
