-- ===== src/Text/Scan.antt =====
-- sscanf of the C library, for the conversions that src/stats uses: %llu, %u, %d, %ld, %s and the
-- ones that assign nothing. A format is a list of directives.
pub mod Lines
use istatserverlinux.Prelude.{
  ℕ, zero, suc, ◌+◌, ◌-◌, ◌*◌, Bool, true, false, List, [], ◌∷◌, ◌++◌, Option, none, some, ltb, leb,
  ◌==◌, if◌then◌else◌, length, take, drop, ◌≡◌, refl,
}
use istatserverlinux.Prelude.Int.{ℤ, pos, negsuc}
use istatserverlinux.Text.{Bytes, codes}
use istatserverlinux.Text.Number.{
  is_digit, is_space, skip_space, read_digits, clamp_ulong, clamp_long, to_int32,
}

-- White space in a format takes any white space; `skip` is %*d and its like.
pub data Directive : Type 0 where
  blank : Directive
  literal : ℕ → Directive
  unsigned : Directive
  signed : Directive
  word : Directive
  skip : Directive

pub data Value : Type 0 where
  natural : ℕ → Value
  integer : ℤ → Value
  text : Bytes → Value

-- The directives of the plain part of a format.
abbrev pub plain : Bytes → List Directive
plain [] = []
plain (c ∷ format) = (if is_space c then blank else literal c) ∷ plain format

unfoldable pub digits_length : Bytes → ℕ
digits_length [] = 0
digits_length (c ∷ s) = if is_digit c then suc (digits_length s) else 0

unfoldable pub word_end : Bytes → ℕ
word_end [] = 0
word_end (c ∷ s) = if is_space c then 0 else suc (word_end s)

-- The digits in front of the text, and what is behind them; no digit is a matching failure.
abbrev pub number_of : Bool → Bytes → Option (Bool × ℕ × Bytes)
number_of minus s =
    if digits_length s == 0 then none else some (minus, read_digits 0 s, drop (digits_length s) s)

-- An optional sign in front of the digits.
unfoldable pub signed_number : Bytes → Option (Bool × ℕ × Bytes)
unfolding digits_length read_digits
signed_number [] = none
signed_number (c ∷ s) =
    if c == b'-'
    then number_of true s
    else if c == b'+'
    then number_of false s
    else number_of false (c ∷ s)

unfoldable pub scan_number : Bytes → Option (Bool × ℕ × Bytes)
unfolding signed_number skip_space
scan_number s = signed_number (skip_space s)

abbrev pub to_value : Directive → Bool → ℕ → List Value
to_value unsigned minus n = natural (clamp_ulong minus n) ∷ []
to_value signed minus n = integer (clamp_long minus n) ∷ []
to_value _ minus n = []

-- What the rest of the format makes of the rest of the text, behind the values of this directive.
abbrev pub then_scan : (Bytes → List Value) → Directive → Option (Bool × ℕ × Bytes) → List Value
then_scan more directive none = []
then_scan more directive (some (minus, n, rest)) = to_value directive minus n ++ more rest

abbrev pub literal_scan : (Bytes → List Value) → ℕ → Bytes → List Value
literal_scan more c [] = []
literal_scan more c (d ∷ rest) = if c == d then more rest else []

abbrev pub word_scan : (Bytes → List Value) → Bytes → List Value
word_scan more s =
    if word_end s == 0 then [] else text (take (word_end s) s) ∷ more (drop (word_end s) s)

-- The values assigned before the first failure, in their order.
unfoldable pub scan : List Directive → Bytes → List Value
unfolding scan_number skip_space word_end
scan [] s = []
scan (blank ∷ format) s = scan format (skip_space s)
scan (literal c ∷ format) s = literal_scan (scan format) c s
scan (unsigned ∷ format) s = then_scan (scan format) unsigned (scan_number s)
scan (signed ∷ format) s = then_scan (scan format) signed (scan_number s)
scan (skip ∷ format) s = then_scan (scan format) skip (scan_number s)
scan (word ∷ format) s = word_scan (scan format) (skip_space s)

-- What a variable holds behind sscanf: the value assigned to it, or what it held.
abbrev pub natural_or : List Value → ℕ → ℕ
natural_or (natural n ∷ rest) old = n
natural_or _ old = old

-- A value for an `int`.
abbrev pub int_or : List Value → ℤ → ℤ
int_or (integer n ∷ rest) old = to_int32 n
int_or _ old = old

-- fgets over a whole text: lines with their line feeds, cut where `size` bytes have come, `room` of
-- them still free.
unfoldable pub fgets_from : ℕ → ℕ → Bytes → Bytes → List Bytes
fgets_from size room [] [] = []
fgets_from size room (l ∷ line) [] = (l ∷ line) ∷ []
fgets_from size room line (c ∷ s) =
    let full = room == 0 in
    let held = (if full then [] else line) ++ c ∷ [] in
    let left = if full then size else room in
    let rest =
      fgets_from size (if c == 10 then size else left - 1) (if c == 10 then [] else held) s in
    let lines = if c == 10 then held ∷ rest else rest in if full then line ∷ lines else lines

-- The buffer has one byte for the terminator.
unfoldable pub fgets_lines : ℕ → Bytes → List Bytes
unfolding fgets_from
fgets_lines size s = fgets_from (size - 1) (size - 1) [] s

scan_run :
    scan (plain (codes "MemFree: ") ++ unsigned ∷ plain (codes " kB")) (codes "MemFree:   120 kB\n")
    ≡ natural 120 ∷ []
unfolding scan
scan_run = refl

scan_none : scan (plain (codes "cpu ") ++ skip ∷ unsigned ∷ []) (codes "cpu 1 x") ≡ []
unfolding scan
scan_none = refl

fgets_lines_run : fgets_lines 4 (codes "abcd\ne\n") ≡ codes "abc" ∷ codes "d\n" ∷ codes "e\n" ∷ []
unfolding fgets_lines
fgets_lines_run = refl
