-- ===== src/Argument/Words.antt =====
-- The command lines that src/Argument.cpp reads back.
use istatserverlinux.Prelude.{
  ℕ, suc, ◌-◌, ◌+◌, false, List, [], ◌∷◌, ◌++◌, Option, none, some, if◌then◌else◌, ◌≡◌, refl, ap,
  inl, inr, arith, take, drop, length, Bool-cases,
}
use istatserverlinux.Text.{Bytes, codes, str_eq, shift}
use istatserverlinux.Text.Trim.{one_of, find_first_of}
use istatserverlinux.Argument.{
  Argument, is_dashed, value_behind, at_sign, option, arguments, argument_set, get_in, get,
}

-- What a user writes: --name=value, --name, -n value, -n alone, or a word that is no option.
pub data Setting : Type 0 where
  long : Bytes → Bytes → Setting
  long_flag : Bytes → Setting
  short : Bytes → Bytes → Setting
  short_flag : Bytes → Setting
  other : Bytes → Setting

abbrev pub words : List Setting → List Bytes
words [] = []
words (long name value ∷ rest) = (codes "--" ++ name ++ codes "=" ++ value) ∷ words rest
words (long_flag name ∷ rest) = (codes "--" ++ name) ∷ words rest
words (short name value ∷ rest) = (codes "-" ++ name) ∷ value ∷ words rest
words (short_flag name ∷ rest) = (codes "-" ++ name) ∷ words rest
words (other word ∷ rest) = word ∷ words rest

-- Nothing follows, or an option, or the word 1: what follows is not taken for another value.
abbrev pub GivesNoValue : List Setting → Type 0
GivesNoValue [] = Unit
GivesNoValue (other word ∷ rest) = word ≡ codes "1"
GivesNoValue (setting ∷ rest) = Unit

-- A long name has no sign in it, a short one and the value behind it no dash in front, and nothing
-- behind a short flag is its value.
abbrev pub AreClear : List Setting → Type 0
AreClear [] = Unit
AreClear (long name value ∷ rest) = (find_first_of (codes "=") name ≡ none) × AreClear rest
AreClear (long_flag name ∷ rest) = (find_first_of (codes "=") name ≡ none) × AreClear rest
AreClear (short name value ∷ rest) =
    (is_dashed name ≡ false) × (is_dashed value ≡ false) × AreClear rest
AreClear (short_flag name ∷ rest) = (is_dashed name ≡ false) × GivesNoValue rest × AreClear rest
AreClear (other word ∷ rest) = (is_dashed word ≡ false) × AreClear rest

abbrev pub meaning : List Setting → List Argument
meaning [] = []
meaning (long name value ∷ rest) = record { value = value; argument = name } ∷ meaning rest
meaning (long_flag name ∷ rest) = record { value = codes "1"; argument = name } ∷ meaning rest
meaning (short name value ∷ rest) = record { value = value; argument = name } ∷ meaning rest
meaning (short_flag name ∷ rest) = record { value = codes "1"; argument = name } ∷ meaning rest
meaning (other word ∷ rest) = meaning rest

shift-none : (o : Option ℕ) → shift o ≡ none → o ≡ none
shift-none none h = refl
shift-none (some i) h = absurd (ground (arith, h))

find_first_of-sign :
    (name value : Bytes)
    → find_first_of (codes "=") name ≡ none
    → find_first_of (codes "=") (name ++ codes "=" ++ value) ≡ some (length name)
unfolding find_first_of one_of
find_first_of-sign [] value h = refl
find_first_of-sign (c ∷ name) value h = elim (Bool-cases (one_of (codes "=") c)) [
  | inl e ↦ absurd (ground (arith, e, h))
  | inr e ↦
      rw
        (
          e,
          find_first_of-sign name value
              (shift-none (find_first_of (codes "=") name) (ground (arith, e, h))),
        )
        refl
]

take_before : (name value : Bytes) → take (length name) (name ++ codes "=" ++ value) ≡ name
take_before [] value = refl
take_before (c ∷ name) value = ap (◌∷◌ c) (take_before name value)

drop_behind : (name value : Bytes) → drop (suc (length name)) (name ++ codes "=" ++ value) ≡ value
drop_behind [] value = refl
drop_behind (d ∷ name) value = drop_behind name value

option-long :
    (name value : Bytes) (rest : List Bytes)
    → find_first_of (codes "=") name ≡ none
    → option (codes "--" ++ name ++ codes "=" ++ value) rest
      ≡ record { value = value; argument = name }
unfolding option find_first_of one_of str_eq
option-long name value rest h =
    let behind : suc (suc (length name)) + 1 ≡ suc (suc (suc (length name))) = omega arith in
    let before : suc (suc (length name)) - 2 ≡ length name = omega arith in
    let value_is : drop (suc (suc (suc (length name)))) (codes "--" ++ name ++ codes "=" ++ value)
        ≡ value =
      drop_behind name value in
    let name_is : take (length name) (drop 2 (codes "--" ++ name ++ codes "=" ++ value)) ≡ name =
      take_before name value in
    rw (find_first_of-sign name value h, at_sign, behind, before, value_is, name_is) refl

option-long_flag :
    (name : Bytes) (rest : List Bytes)
    → find_first_of (codes "=") name ≡ none
    → option (codes "--" ++ name) rest ≡ record { value = codes "1"; argument = name }
unfolding option find_first_of one_of str_eq
option-long_flag name rest h = rw h refl

option-short :
    (name : Bytes) (rest : List Bytes)
    → is_dashed name ≡ false
    → option (codes "-" ++ name) rest ≡ record { value = value_behind rest; argument = name }
unfolding option
option-short name rest h = rw h refl

value_behind-words :
    (settings : List Setting) → GivesNoValue settings → value_behind (words settings) ≡ codes "1"
unfolding str_eq
value_behind-words [] h = refl
value_behind-words (long name value ∷ rest) h = refl
value_behind-words (long_flag name ∷ rest) h = refl
value_behind-words (short name value ∷ rest) h = refl
value_behind-words (short_flag name ∷ rest) h = refl
value_behind-words (other word ∷ rest) h = rw h refl

arguments-words :
    (settings : List Setting) → AreClear settings → arguments (words settings) ≡ meaning settings
unfolding arguments str_eq
arguments-words [] h = refl
arguments-words (long name value ∷ rest) h =
    rw (option-long name value (words rest) h.0, arguments-words rest h.1) refl
arguments-words (long_flag name ∷ rest) h =
    rw (option-long_flag name (words rest) h.0, arguments-words rest h.1) refl
arguments-words (short name value ∷ rest) h =
    rw (option-short name (value ∷ words rest) h.0, h.1, arguments-words rest h.2) refl
arguments-words (short_flag name ∷ rest) h =
    rw (option-short name (words rest) h.0, value_behind-words rest h.1, arguments-words rest h.2)
      refl
arguments-words (other word ∷ rest) h = rw (h.0, arguments-words rest h.1) refl

-- The value of the first option of the name.
abbrev pub value_of : List Setting → Bytes → Bytes → Bytes
value_of [] arg val = val
value_of (long name value ∷ rest) arg val = if str_eq name arg then value else value_of rest arg val
value_of (long_flag name ∷ rest) arg val =
    if str_eq name arg then codes "1" else value_of rest arg val
value_of (short name value ∷ rest) arg val =
    if str_eq name arg then value else value_of rest arg val
value_of (short_flag name ∷ rest) arg val =
    if str_eq name arg then codes "1" else value_of rest arg val
value_of (other word ∷ rest) arg val = value_of rest arg val

get_in-meaning :
    (settings : List Setting) (arg val : Bytes)
    → get_in (meaning settings) arg val ≡ value_of settings arg val
unfolding get_in
get_in-meaning [] arg val = refl
get_in-meaning (long name value ∷ rest) arg val = rw (get_in-meaning rest arg val) refl
get_in-meaning (long_flag name ∷ rest) arg val = rw (get_in-meaning rest arg val) refl
get_in-meaning (short name value ∷ rest) arg val = rw (get_in-meaning rest arg val) refl
get_in-meaning (short_flag name ∷ rest) arg val = rw (get_in-meaning rest arg val) refl
get_in-meaning (other word ∷ rest) arg val = get_in-meaning rest arg val

-- Behind the name of the program, the words of the settings are read as what the settings mean, one
-- argument for each option in its order, and `get` gives the value of the first option of the name,
-- or the default where there is none. No long name holds a sign; no short name, no value behind one
-- and no other word begins with a dash; and a short flag is the last, or has an option behind it, or
-- the word 1.
pub argument_set-words :
    (program : Bytes) (settings : List Setting)
    → AreClear settings
    → ((argument_set (program ∷ words settings)).args ≡ meaning settings)
      × ((arg val : Bytes)
          → get (argument_set (program ∷ words settings)) arg val ≡ value_of settings arg val)
unfolding argument_set get
argument_set-words program settings h =
    let all = arguments-words settings h in
    (all, λ arg val. rw all (get_in-meaning settings arg val))
