-- ===== src/Conf/Lines.antt =====
-- Which configuration files src/Conf.cpp gets through.
use istatserverlinux.Prelude.{
  ℕ, suc, Bool, true, false, List, [], ◌∷◌, ◌++◌, none, some, ◌≡◌, refl, ◌⊎◌, inl, inr, arith, ◌==◌,
  if◌then◌else◌, length, take, drop, All, Bool-cases,
}
use istatserverlinux.Prelude.Outcome.{Outcome, done, crash}
use istatserverlinux.Text.{Bytes, codes}
use istatserverlinux.Text.Trim.{trim, blanks, one_of, find_first_of}
use istatserverlinux.Clientset.{lines}
use istatserverlinux.Conf.{
  Property, null_property, Config, remove_junk, set_property, parse_line, parse_lines, parse,
}

-- A space or a tab stands in the text.
abbrev pub has_blank : Bytes → Bool
has_blank [] = false
has_blank (c ∷ s) = if one_of (codes " \t") c then true else has_blank s

-- Once the blanks at the ends and the comment are gone, the line is empty or has a blank in it.
abbrev pub IsSetting : Bytes → Type 0
IsSetting text = (length (remove_junk text) ≡ 0) ⊎ (has_blank (remove_junk text) ≡ true)

find_first_of-has_blank :
    (s : Bytes)
    → (has_blank s ≡ true) × ((i : ℕ) × (find_first_of (codes " \t") s ≡ some i))
      ⊎ (has_blank s ≡ false) × (find_first_of (codes " \t") s ≡ none)
unfolding find_first_of
find_first_of-has_blank [] = inr (refl, refl)
find_first_of-has_blank (c ∷ s) = elim (Bool-cases (one_of (codes " \t") c)) [
  | inl e ↦ inl (rw e refl, (0, rw e refl))
  | inr e ↦ elim (find_first_of-has_blank s) [
    | inl (b, (i, f)) ↦ inl (rw (e, b) refl, (suc i, rw (e, f) refl))
    | inr (b, f) ↦ inr (rw (e, b) refl, rw (e, f) refl)
  ]
]

parse_line_lem :
    (last : Property) (line : Bytes)
    → (has_blank line ≡ true) × ((p : Property) × (parse_line last line ≡ done p))
      ⊎ (has_blank line ≡ false) × (parse_line last line ≡ crash)
unfolding parse_line
parse_line_lem last line = elim (find_first_of-has_blank line) [
  | inl (b, (i, f)) ↦
      inl (b, (set_property last (take i line) (trim (drop i line) blanks), rw f refl))
  | inr (b, f) ↦ inr (b, rw f refl)
]

-- The loop gets through just where every line is a setting.
abbrev Through : Outcome (List Property) → List Bytes → Type 0
Through r texts =
    ((properties : List Property) × (r ≡ done properties) × All IsSetting texts)
    ⊎ (r ≡ crash) × (¬ All IsSetting texts)

parse_lines-Through :
    (texts : List Bytes) (last : Property) (properties : List Property)
    → Through (parse_lines last properties texts) texts
unfolding parse_lines
parse_lines-Through [] last properties = inl (properties, refl, tt)
parse_lines-Through (text ∷ rest) last properties =
    elim (Bool-cases (length (remove_junk text) == 0)) [
      | inl empty ↦ elim (parse_lines-Through rest last properties) [
        | inl (ps, e, h) ↦ inl (ps, rw (empty, e) refl, (inl (ground arith), h))
        | inr (e, h) ↦ inr (rw (empty, e) refl, λ all. h all.1)
      ]
      | inr full ↦ elim (parse_line_lem last (remove_junk text)) [
        | inr (b, e) ↦ inr (
          rw (full, e) refl,
          λ all. elim (all.0) [ inl none_left ↦ ground arith | inr blank ↦ ground arith ],
        )
        | inl (b, (p, e)) ↦ elim (parse_lines-Through rest p (properties ++ p ∷ [])) [
          | inl (ps, f, h) ↦ inl (ps, rw (full, e, f) refl, (inr b, h))
          | inr (f, h) ↦ inr (rw (full, e, f) refl, λ all. h all.1)
        ]
      ]
    ]

-- A file that can be read is parsed to its end just if each of its lines, once the blanks at its
-- ends and its comment are gone, is empty or has a space or a tab in it; any other line, a name with
-- no value, ends the program with an exception.
pub parse_lem :
    (c : Config) (content : Bytes)
    → ((d : Config) × (parse c (some content) ≡ done d) × All IsSetting (lines [] content))
      ⊎ (parse c (some content) ≡ crash) × (¬ All IsSetting (lines [] content))
unfolding parse
parse_lem c content = elim (parse_lines-Through (lines [] content) null_property c.properties) [
  | inl (ps, e, h) ↦ inl (record { properties = ps }, rw e refl, h)
  | inr (e, h) ↦ inr (rw e refl, h)
]
