-- ===== src/Text/Number.antt =====
-- Decimal numbers, as the standard library prints them (`ostream << n`) and reads them (`atoi`,
-- `strtoul`). `atoi` out of range of `int` is undefined in the language; here it does what glibc
-- does, `(int)strtol(s)`.
use istatserverlinux.Prelude.{
  ℕ, zero, suc, ◌+◌, ◌-◌, ◌*◌, ◌/◌, ◌%◌, ◌^◌, ◌<◌, Bool, true, false, ◌&&◌, ◌||◌, [], ◌∷◌, ◌++◌,
  ◌≡◌, refl, arith, ltb, leb, ◌==◌, if◌then◌else◌, inl, inr, Bool-cases, All, All-append, length,
  length-append,
}
use istatserverlinux.Prelude.Int.{ℤ, pos, negsuc, sub_ℕ}
use istatserverlinux.Text.{Bytes, codes}

abbrev pub is_digit : ℕ → Bool
is_digit c = leb b'0' c && leb c b'9'

-- isspace: space, \t, \n, \v, \f, \r
abbrev pub is_space : ℕ → Bool
is_space c = c == 32 || (leb 9 c && leb c 13)

unfoldable pub skip_space : Bytes → Bytes
skip_space [] = []
skip_space (c ∷ s) = if is_space c then skip_space s else c ∷ s

-- The digits in front of `s`, behind those already read into `n`.
unfoldable pub read_digits : ℕ → Bytes → ℕ
read_digits n [] = n
read_digits n (c ∷ s) =
    let rest = read_digits (n * 10 + (c - b'0')) s in if is_digit c then rest else n

-- An optional sign, then digits. The flag is set behind a minus sign.
unfoldable pub read_signed : Bytes → Bool × ℕ
unfolding read_digits
read_signed [] = (false, 0)
read_signed (c ∷ s) =
    if c == b'-'
    then (true, read_digits 0 s)
    else if c == b'+'
    then (false, read_digits 0 s)
    else (false, read_digits 0 (c ∷ s))

abbrev pub long_max : ℕ
long_max = 2 ^ 63 - 1

-- strtol: clamped to a signed word of 64 bits.
abbrev pub clamp_long : Bool → ℕ → ℤ
clamp_long true n = if ltb (2 ^ 63) n then negsuc long_max else sub_ℕ 0 n
clamp_long false n = if ltb long_max n then pos long_max else pos n

-- The low 32 bits of a two's complement word, read as a signed number.
abbrev pub signed32 : ℕ → ℤ
signed32 w = if ltb w (2 ^ 31) then pos w else sub_ℕ w (2 ^ 32)

abbrev pub to_int32 : ℤ → ℤ
to_int32 (pos n) = signed32 (n % 2 ^ 32)
to_int32 (negsuc n) = signed32 (2 ^ 32 - 1 - n % 2 ^ 32)

unfoldable pub strtol : Bytes → ℤ
unfolding skip_space read_signed
strtol s = let (minus, n) = read_signed (skip_space s) in clamp_long minus n

unfoldable pub atoi : Bytes → ℤ
unfolding strtol
atoi s = to_int32 (strtol s)

-- stringstream >> int, as `to_int` of src/Utility.h reads: what the variable, which is not
-- initialised, held (`stray`) where the text is blank, 0 where there is no number, and the nearest
-- bound where it does not fit.
unfoldable pub to_int : ℤ → Bytes → ℤ
unfolding skip_space read_signed
to_int stray s =
    let (minus, n) = read_signed (skip_space s) in
    if length (skip_space s) == 0
    then stray
    else if minus
    then (if ltb (2 ^ 31) n then negsuc (2 ^ 31 - 1) else sub_ℕ 0 n)
    else if ltb (2 ^ 31 - 1) n
    then pos (2 ^ 31 - 1)
    else pos n

abbrev pub ulong_max : ℕ
ulong_max = 2 ^ 64 - 1

-- strtoul: out of range is ULONG_MAX, and a minus sign negates in the unsigned type.
abbrev pub clamp_ulong : Bool → ℕ → ℕ
clamp_ulong minus n =
    if ltb ulong_max n then ulong_max else if minus then (2 ^ 64 - n) % 2 ^ 64 else n

unfoldable pub strtoul : Bytes → ℕ
unfolding skip_space read_signed
strtoul s = let (minus, n) = read_signed (skip_space s) in clamp_ulong minus n

show_fuel : ℕ → ℕ → Bytes
show_fuel zero n = []
show_fuel (suc f) n =
    let front = show_fuel f (n / 10) in
    if ltb n 10 then (b'0' + n) ∷ [] else front ++ (b'0' + n % 10) ∷ []

-- ostream << n: a number below 10 ^ n has at most n digits, so `suc n` rounds are enough.
unfoldable pub show : ℕ → Bytes
unfolding show_fuel
show n = show_fuel (suc n) n

abbrev pub show_ℤ : ℤ → Bytes
show_ℤ (pos n) = show n
show_ℤ (negsuc n) = b'-' ∷ show (suc n)

abbrev Digits : Bytes → Type 0
Digits = All (λ c. is_digit c ≡ true)

show_fuel-Digits : (f n : ℕ) → Digits (show_fuel f n)
unfolding show_fuel
show_fuel-Digits zero n = tt
show_fuel-Digits (suc f) n = elim (Bool-cases (ltb n 10)) [
  | inl e ↦ rw (e, show_fuel) (ground arith, tt)
  | inr e ↦
      rw (e, show_fuel)
        (All-append (λ c. is_digit c ≡ true) (show_fuel f (n / 10)) _ (show_fuel-Digits f (n / 10))
          (ground arith, tt))
]

-- A printed number is all digits.
pub show-Digits : (n : ℕ) → All (λ c. is_digit c ≡ true) (show n)
unfolding show
show-Digits n = show_fuel-Digits (suc n) n

-- A printed number is not empty.
pub length-show : (n : ℕ) → 0 < length (show n)
unfolding show show_fuel
length-show n = ground (arith, length-append (show_fuel n (n / 10)) ((b'0' + n % 10) ∷ []))

read_digits-append :
    (n : ℕ) (s t : Bytes) → Digits s → read_digits n (s ++ t) ≡ read_digits (read_digits n s) t
unfolding read_digits
read_digits-append n [] t h = refl
read_digits-append n (c ∷ s) t h = ground (arith, read_digits-append (n * 10 + (c - b'0')) s t)

read_digits-show_fuel : (f n : ℕ) → n < f → read_digits 0 (show_fuel f n) ≡ n
unfolding show_fuel read_digits
read_digits-show_fuel zero n h = absurd (omega arith)
read_digits-show_fuel (suc f) n h = ground (
  arith,
  read_digits-append 0 (show_fuel f (n / 10)) ((b'0' + n % 10) ∷ []),
  show_fuel-Digits f (n / 10),
  read_digits-show_fuel f (n / 10),
)

-- Reading a printed number back gives the number.
pub read_digits-show : (n : ℕ) → read_digits 0 (show n) ≡ n
unfolding show
read_digits-show n = read_digits-show_fuel (suc n) n (omega arith)

read_digits_run : strtoul (codes " 18446744073709551615x") ≡ 18446744073709551615
unfolding strtoul
read_digits_run = refl

atoi_run : atoi (codes "-12") ≡ negsuc 11
unfolding atoi
atoi_run = refl

show_run : show 10509 ≡ codes "10509"
unfolding show
show_run = refl

skip_space-Digits : (s : Bytes) → Digits s → skip_space s ≡ s
unfolding skip_space
skip_space-Digits [] h = refl
skip_space-Digits (c ∷ s) h = ground (arith, h.0)

read_signed-Digits : (s : Bytes) → Digits s → read_signed s ≡ (false, read_digits 0 s)
unfolding read_signed read_digits
read_signed-Digits [] h = refl
read_signed-Digits (c ∷ s) h = ground (arith, h.0)

-- strtoul reads a printed number back, where it fits in 64 bits.
pub strtoul-show : (n : ℕ) → n < 2 ^ 64 → strtoul (show n) ≡ n
unfolding strtoul
strtoul-show n h =
    rw
      (
        skip_space-Digits (show n) (show-Digits n),
        read_signed-Digits (show n) (show-Digits n),
        read_digits-show n,
      )
      (ground (arith, h))
