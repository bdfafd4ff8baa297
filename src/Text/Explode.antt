-- ===== src/Text/Explode.antt =====
-- `explode` of src/Utility.cpp: cut a text at delimiters, leaving out empty pieces, with a piece
-- in quotes kept whole.
pub mod Pieces
use istatserverlinux.Prelude.{
  ℕ, zero, suc, ◌+◌, ◌≤◌, ◌<◌, Bool, true, false, ◌&&◌, List, [], ◌∷◌, ◌++◌, Option, none, some,
  ◌≡◌, ◌≢◌, refl, ◌⊎◌, inl, inr, arith, ltb, ◌==◌, if◌then◌else◌, length, take, drop, Option-cases,
  Bool-cases, ltb→lt, length-drop, length-take,
}
use istatserverlinux.Text.{Bytes, codes, shift, str_eq, str_eq_iff}

-- find(c, 0)
unfoldable pub find_char : ℕ → Bytes → Option ℕ
find_char x [] = none
find_char x (c ∷ s) = if c == x then some 0 else shift (find_char x s)

-- if (pos < split_pos) split_pos = pos, with npos as the largest
abbrev pub closer : ℕ → Option ℕ → Option ℕ
closer p none = some p
closer p (some q) = if ltb p q then some p else some q

-- The inner loop over the delimiters: the first split position and the number without a match.
unfoldable pub scan_delims : Bytes → Bytes → Option ℕ → ℕ → Option ℕ × ℕ
scan_delims [] source split_pos no_match = (split_pos, no_match)
scan_delims (x ∷ delim) source split_pos no_match = elim (find_char x source) [
  | none ↦ scan_delims delim source split_pos (no_match + 1)
  | some pos ↦ scan_delims delim source (closer pos split_pos) no_match
]

abbrev pub plus_two : Option ℕ → Option ℕ
plus_two none = none
plus_two (some i) = some (i + 2)

-- Where a text that begins with a quote has its closing quote.
unfoldable pub quote_end : Bytes → Option ℕ
unfolding find_char
quote_end [] = none
quote_end (c ∷ s) = if c == b'"' then plus_two (find_char b'"' s) else none

abbrev pub or_else : Option ℕ → Option ℕ → Option ℕ
or_else none q = q
or_else (some p) q = some p

-- substr(0, split_pos)
abbrev pub part_of : Bytes → Option ℕ → Bytes
part_of source none = source
part_of source (some p) = take p source

-- erase(0, split_pos + 1): the position behind npos is 0.
abbrev pub rest_of : Bytes → Option ℕ → Bytes
rest_of source none = source
rest_of source (some p) = drop (suc p) source

-- if (splitted_part != "") ret.push_back(splitted_part)
abbrev pub keep_part : List Bytes → Bytes → List Bytes
keep_part ret [] = ret
keep_part ret (c ∷ s) = ret ++ (c ∷ s) ∷ []

unfoldable pub explode_loop : ℕ → ℕ → Bytes → Bytes → List Bytes → Option (List Bytes)
explode_loop zero no_match delim source ret = none
explode_loop (suc fuel) no_match delim source ret = elim (ltb no_match (length delim)) [
  | false ↦ some ret
  | true ↦
      let (pos, missed) = scan_delims delim source none 0 in
      let split_pos = or_else (quote_end source) pos in
      explode_loop fuel missed delim (rest_of source split_pos)
        (keep_part ret (part_of source split_pos))
]

abbrev pub result_of : Option (List Bytes) → List Bytes
result_of none = []
result_of (some r) = r

-- Each round but the last takes a byte or more off the source, so the fuel is enough.
unfoldable pub explode : Bytes → Bytes → List Bytes
unfolding explode_loop scan_delims quote_end
explode source delim = result_of (explode_loop (suc (suc (length source))) 0 delim source [])

scan_delims_missed :
    (delim source : Bytes) (pos : Option ℕ) (missed : ℕ)
    → missed ≤ (scan_delims delim source pos missed).1
unfolding scan_delims
scan_delims_missed [] source pos missed = omega arith
scan_delims_missed (x ∷ delim) source pos missed = elim (Option-cases (find_char x source)) [
  | inl e ↦ rw (e, scan_delims) (omega (arith, scan_delims_missed delim source pos (missed + 1)))
  | inr (p, e) ↦ rw (e, scan_delims) (scan_delims_missed delim source (closer p pos) missed)
]

-- On the empty source no delimiter is found.
scan_delims_nil :
    (delim : Bytes) (missed : ℕ) → (scan_delims delim [] none missed).1 ≡ missed + length delim
unfolding scan_delims find_char
scan_delims_nil [] missed = omega arith
scan_delims_nil (x ∷ delim) missed = omega (arith, scan_delims_nil delim (missed + 1))

-- A position set earlier stays set.
scan_delims_set :
    (delim source : Bytes) (p missed : ℕ) → (scan_delims delim source (some p) missed).0 ≢ none
unfolding scan_delims
scan_delims_set [] source p missed = λ e. cc
scan_delims_set (x ∷ delim) source p missed = elim (Option-cases (find_char x source)) [
  | inl e ↦ rw (e, scan_delims) (scan_delims_set delim source p (missed + 1))
  | inr (q, e) ↦
      rw (e, scan_delims)
        (elim (Bool-cases (ltb q p)) [
          | inl t ↦ rw t (scan_delims_set delim source q missed)
          | inr t ↦ rw t (scan_delims_set delim source p missed)
        ])
]

-- With no position found, all delimiters missed.
scan_delims-none :
    (delim source : Bytes) (missed : ℕ)
    → (scan_delims delim source none missed).0 ≡ none
    → (scan_delims delim source none missed).1 ≡ missed + length delim
unfolding scan_delims
scan_delims-none [] source missed h = omega arith
scan_delims-none (x ∷ delim) source missed h = elim (Option-cases (find_char x source)) [
  | inl e ↦
      rw (e, scan_delims)
        (omega (arith, scan_delims-none delim source (missed + 1) (rw (e, scan_delims) at h)))
  | inr (p, e) ↦ absurd (scan_delims_set delim source p missed (rw (e, scan_delims) at h))
]

abbrev split_of : Bytes → Bytes → Option ℕ
split_of delim source = or_else (quote_end source) (scan_delims delim source none 0).0

-- A round that found a delimiter takes a byte or more.
rest_shorter :
    (delim source : Bytes)
    → (scan_delims delim source none 0).1 < length delim
    → length (rest_of source (split_of delim source)) < length source
rest_shorter delim [] h = absurd (omega (arith, scan_delims_nil delim 0))
rest_shorter delim (c ∷ s) h = elim (Option-cases (split_of delim (c ∷ s))) [
  | inl e ↦
      absurd (omega (arith, scan_delims-none delim (c ∷ s) 0 (no_split (quote_end (c ∷ s)) e)))
  | inr (p, e) ↦ rw e (omega (arith, length-drop p s))
]
  where
    no_split : (q : Option ℕ) {r : Option ℕ} → or_else q r ≡ none → r ≡ none
    no_split none h = h
    no_split (some p) h = cc

explode_loop-end :
    (fuel missed : ℕ) (delim source : Bytes) (ret : List Bytes)
    → length delim ≤ missed
    → explode_loop (suc fuel) missed delim source ret ≡ some ret
unfolding explode_loop
explode_loop-end fuel missed delim source ret h = ground arith

-- With two rounds more than bytes, the loop of `explode` ends, for any delimiters and from any
-- state.
pub explode_loop_total :
    (fuel missed : ℕ) (delim source : Bytes) (ret : List Bytes)
    → length source + 2 ≤ fuel
    → (r : List Bytes) × (explode_loop fuel missed delim source ret ≡ some r)
unfolding explode_loop
explode_loop_total zero missed delim source ret h = absurd (omega arith)
explode_loop_total (suc zero) missed delim source ret h = absurd (omega arith)
explode_loop_total (suc (suc fuel)) missed delim source ret h =
    let again =
      explode_loop_total (suc fuel) (scan_delims delim source none 0).1 delim
        (rest_of source (split_of delim source))
        (keep_part ret (part_of source (split_of delim source))) in
    elim (Bool-cases (ltb missed (length delim))) [
      | inr e ↦ (ret, rw (e, explode_loop))
      | inl e ↦ elim (Bool-cases (ltb (scan_delims delim source none 0).1 (length delim))) [
        | inl more ↦
            rw (e, explode_loop)
              (again (omega (arith, rest_shorter delim source (ltb→lt _ _ more))))
        | inr over ↦ (
          keep_part ret (part_of source (split_of delim source)),
          rw (e, explode_loop) (explode_loop-end fuel _ delim _ _ (ground arith)),
        )
      ]
    ]

explode_run :
    explode (codes "a::\"b:c\":d") (codes ":") ≡ codes "a" ∷ codes "\"b:c\"" ∷ codes "d" ∷ []
unfolding explode find_char
explode_run = refl
