-- ===== src/Stats/LinuxProcStat/Line.antt =====
-- The words behind the name in a line that src/stats/LinuxProcStat.h reads.
use istatserverlinux.Prelude.{
  ℕ, zero, suc, ◌+◌, ◌^◌, ◌<◌, Bool, true, false, not, ◌||◌, List, [], ◌∷◌, ◌++◌, Option, some, ◌≡◌,
  ◌≢◌, refl, ap, ◌∙◌, fun_ext, subst, inl, inr, arith, ◌==◌, length, All, take-full, drop-full,
  append_assoc,
}
use istatserverlinux.Text.{Bytes}
use istatserverlinux.Text.Number.{
  is_space, skip_space, show, show-Digits, length-show, read_digits-show,
}
use istatserverlinux.Text.Explode.Pieces.{Lacks}
use istatserverlinux.Stats.LinuxProcStat.{
  LinuxProcStat, parse_unsigned_proc_field, word_length, next_token, set_field, read_fields,
  with_some,
}
use istatserverlinux.Stats.LinuxProcStat.Fields.{parse_unsigned_proc_field_lem}

-- A word with no blank and no closing bracket in it.
abbrev pub IsWord : Bytes → Type 0
IsWord w = (w ≢ []) × All (λ c. is_space c ≡ false) w × Lacks b')' w

-- The words, each with a blank behind it.
abbrev pub words_text : List Bytes → Bytes
words_text [] = []
words_text (w ∷ words) = w ++ b' ' ∷ words_text words

word_length-append :
    (w rest : Bytes) → All (λ c. is_space c ≡ false) w → word_length (w ++ b' ' ∷ rest) ≡ length w
unfolding word_length
word_length-append [] rest h = refl
word_length-append (c ∷ w) rest h = rw (h.0, word_length-append w rest h.1) refl

next_token-append :
    (w rest : Bytes) → IsWord w → next_token (w ++ b' ' ∷ rest) ≡ some (w, b' ' ∷ rest)
unfolding next_token skip_space
next_token-append [] rest h = absurd (h.0 refl)
next_token-append (c ∷ w) rest h =
    rw
      (
        h.1.0,
        word_length-append (c ∷ w) rest h.1,
        take-full w (b' ' ∷ rest),
        drop-full w (b' ' ∷ rest),
      )
      (ground arith)

next_token-blank : (s : Bytes) → next_token (b' ' ∷ s) ≡ next_token s
unfolding next_token skip_space
next_token-blank s = refl

-- The fields one by one.
abbrev pub read_words : ℕ → List Bytes → LinuxProcStat → Option LinuxProcStat
read_words field [] parsed = some parsed
read_words field (w ∷ words) parsed =
    with_some (set_field field w parsed) (read_words (suc field) words)

read_fields-blank :
    (count field : ℕ) (s : Bytes) (parsed : LinuxProcStat)
    → read_fields count field (b' ' ∷ s) parsed ≡ read_fields count field s parsed
unfolding read_fields
read_fields-blank zero field s parsed = refl
read_fields-blank (suc count) field s parsed = rw (read_fields, next_token-blank s) refl

pub read_fields-words_text :
    (words : List Bytes) (field : ℕ) (rest : Bytes) (parsed : LinuxProcStat)
    → All IsWord words
    → read_fields (length words) field (words_text words ++ rest) parsed
      ≡ read_words field words parsed
unfolding read_fields
read_fields-words_text [] field rest parsed h = refl
read_fields-words_text (w ∷ words) field rest parsed h =
    rw
      (
        append_assoc w (b' ' ∷ words_text words) rest,
        read_fields,
        next_token-append w (words_text words ++ rest) h.0,
      )
      (ap (with_some (set_field field w parsed)) (
        fun_ext (λ p.
          read_fields-blank (length words) (suc field) (words_text words ++ rest) p
          ∙ read_fields-words_text words (suc field) rest p h.1)))

-- The fields in which nothing is read.
abbrev is_plain : ℕ → Bool
is_plain field = not (field == 3 || field == 14 || field == 15 || field == 20 || field == 24)

set_field-plain :
    (field : ℕ) (w : Bytes) (parsed : LinuxProcStat)
    → is_plain field ≡ true
    → set_field field w parsed ≡ some parsed
unfolding set_field
set_field-plain field w parsed h = ground (arith, h)

pub read_words-plain :
    (words more : List Bytes) (field : ℕ) (parsed : LinuxProcStat)
    → ((i : ℕ) → i < length words → is_plain (field + i) ≡ true)
    → read_words field (words ++ more) parsed ≡ read_words (field + length words) more parsed
read_words-plain [] more field parsed h =
    let same : field ≡ field + 0 = omega arith in ap (λ f. read_words f more parsed) same
read_words-plain (w ∷ words) more field parsed h =
    let here : is_plain field ≡ true =
      let same : field + 0 ≡ field = omega arith in
      subst (λ f. is_plain f ≡ true) same (h 0 (omega arith)) in
    let behind : suc field + length words ≡ field + suc (length words) = omega arith in
    rw (set_field-plain field w parsed here) (
      read_words-plain words more (suc field) parsed (λ i l.
        let same : field + suc i ≡ suc field + i = omega arith in
        subst (λ f. is_plain f ≡ true) same (h (suc i) (omega (arith, l))))
      ∙ ap (λ f. read_words f more parsed) behind)

show_full : (n : ℕ) → show n ≢ []
show_full n e = omega (arith, length-show n, ap length e)

pub parse_unsigned_proc_field-show :
    (n : ℕ) → n < 2 ^ 64 → parse_unsigned_proc_field (show n) ≡ some n
parse_unsigned_proc_field-show n h = elim (parse_unsigned_proc_field_lem (show n)) [
  | inl (full, digits, small, e) ↦ e ∙ ap some (read_digits-show n)
  | inr (bad, e) ↦ absurd (bad (show_full n, show-Digits n, rw (read_digits-show n) h))
]
