-- ===== src/Text.antt =====
-- std::string as a list of bytes, with the members that the program calls. A position that a
-- search does not find (`npos`) is `none`.
pub mod Explode
pub mod Trim
pub mod Number
pub mod Scan
use Prim.Native.Char.{code}
use istatserverlinux.Prelude.{
  ℕ, zero, suc, ◌+◌, ◌≤◌, String, Bool, true, false, ◌&&◌, List, [], ◌∷◌, ◌++◌, Option, none, some,
  ◌≡◌, refl, ◌∙◌, ◌↔◌, ◌⊎◌, inl, inr, arith, ◌==◌, if◌then◌else◌, length, Bool-cases, Option-cases,
}

abbrev pub Bytes : Type 0
Bytes = List ℕ

-- The bytes of an ASCII literal.
abbrev pub codes : String → Bytes
codes String.[] = []
codes (String.◌∷◌ c s) = code c ∷ codes s

-- operator==
unfoldable pub str_eq : Bytes → Bytes → Bool
str_eq [] [] = true
str_eq (a ∷ s) (b ∷ t) = a == b && str_eq s t
str_eq _ _ = false

unfoldable pub is_prefix : Bytes → Bytes → Bool
is_prefix [] s = true
is_prefix (a ∷ n) [] = false
is_prefix (a ∷ n) (b ∷ s) = a == b && is_prefix n s

abbrev pub shift : Option ℕ → Option ℕ
shift none = none
shift (some i) = some (suc i)

-- find(needle)
unfoldable pub find : Bytes → Bytes → Option ℕ
unfolding is_prefix
find n [] = if is_prefix n [] then some 0 else none
find n (c ∷ s) = if is_prefix n (c ∷ s) then some 0 else shift (find n s)

-- find_last_of, rfind of one byte
unfoldable pub rfind_char : ℕ → Bytes → Option ℕ
rfind_char x [] = none
rfind_char x (c ∷ s) = elim (rfind_char x s) [
  | some i ↦ some (suc i)
  | none ↦ if c == x then some 0 else none
]

pub str_eq_iff : (s t : Bytes) → (str_eq s t ≡ true) ↔ (s ≡ t)
unfolding str_eq
str_eq_iff (a ∷ s) (b ∷ t) = ground (arith, str_eq_iff s t)
str_eq_iff _ _ = ground arith

pub str_eq_refl : (s : Bytes) → str_eq s s ≡ true
str_eq_refl s = (str_eq_iff s s).1 refl

pub str_eq_comm : (s t : Bytes) → str_eq s t ≡ str_eq t s
unfolding str_eq
str_eq_comm [] [] = refl
str_eq_comm [] (b ∷ t) = refl
str_eq_comm (a ∷ s) [] = refl
str_eq_comm (a ∷ s) (b ∷ t) = ground (arith, str_eq_comm s t)

is_prefix-append : (n s t : Bytes) → length n ≤ length s → is_prefix n (s ++ t) ≡ is_prefix n s
unfolding is_prefix
is_prefix-append [] s t h = refl
is_prefix-append (a ∷ n) [] t h = absurd (omega arith)
is_prefix-append (a ∷ n) (b ∷ s) t h = ground (arith, is_prefix-append n s t)

is_prefix-length : (n s : Bytes) → is_prefix n s ≡ true → length n ≤ length s
unfolding is_prefix
is_prefix-length [] s h = omega arith
is_prefix-length (a ∷ n) [] h = ground arith
is_prefix-length (a ∷ n) (b ∷ s) h = ground (arith, is_prefix-length n s)

pub find_bound : (n s : Bytes) (i : ℕ) → find n s ≡ some i → i + length n ≤ length s
unfolding find
find_bound n [] i h = ground (arith, is_prefix-length n [])
find_bound n (c ∷ s) i h = elim (Option-cases (find n s)) [
  | inl e ↦ ground (arith, is_prefix-length n (c ∷ s))
  | inr (j, e) ↦ ground (arith, is_prefix-length n (c ∷ s), find_bound n s j e)
]

find-append_here : (n s t : Bytes) → is_prefix n s ≡ true → find n (s ++ t) ≡ some 0
unfolding find
find-append_here n [] [] h = ground arith
find-append_here n [] (d ∷ t) h =
    ground (arith, is_prefix-append n [] (d ∷ t), is_prefix-length n [])
find-append_here n (c ∷ s) t h =
    ground (arith, is_prefix-append n (c ∷ s) t, is_prefix-length n (c ∷ s))

-- Bytes behind a match do not move it.
pub find-append : (n s t : Bytes) (i : ℕ) → find n s ≡ some i → find n (s ++ t) ≡ some i
unfolding find
find-append n [] t i h = elim (Bool-cases (is_prefix n [])) [
  | inl e ↦ find-append_here n [] t e ∙ ground arith
  | inr e ↦ ground arith
]
find-append n (c ∷ s) t i h = elim (Option-cases (find n s)) [
  | inl e ↦ ground (arith, find-append_here n (c ∷ s) t)
  | inr (j, e) ↦ ground (
    arith,
    is_prefix-append n (c ∷ s) t,
    is_prefix-length n (c ∷ s),
    find_bound n s j e,
    find-append n s t j e,
  )
]
