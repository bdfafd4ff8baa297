-- ===== src/Text/Scan/Lines.antt =====
-- Lines that fgets gives back, and the numbers that sscanf finds in them.
use istatserverlinux.Prelude.{
  ℕ, suc, ◌+◌, ◌-◌, ◌*◌, ◌<◌, true, false, List, [], ◌∷◌, ◌++◌, some, ◌==◌, length, drop, drop-full,
  ◌≡◌, refl, ap, ◌∙◌, arith, All, append_assoc,
}
use istatserverlinux.Text.{Bytes}
use istatserverlinux.Text.Number.{
  is_digit, skip_space, read_digits, show, show-Digits, length-show, read_digits-show,
}
use istatserverlinux.Text.Scan.{digits_length, signed_number, scan_number, fgets_from, fgets_lines}

abbrev pub HasNoFeed : Bytes → Type 0
HasNoFeed = All (λ c. (c == 10) ≡ false)

fgets_from-line :
    (size room : ℕ) (line t s : Bytes)
    → HasNoFeed t
    → length t < room
    → fgets_from size room line (t ++ 10 ∷ s) ≡ (line ++ (t ++ 10 ∷ [])) ∷ fgets_from size size [] s
unfolding fgets_from
fgets_from-line size room line [] s h l =
    let free : (room == 0) ≡ false = ground (arith, l) in rw free refl
fgets_from-line size room line (c ∷ t) s h l =
    let free : (room == 0) ≡ false = ground (arith, l) in
    rw (free, h.0)
      (fgets_from-line size (room - 1) (line ++ c ∷ []) t s h.1 (omega (arith, l))
        ∙ ap (λ k. k ∷ fgets_from size size [] s) (append_assoc line (c ∷ []) (t ++ 10 ∷ [])))

-- A digit in front of other bytes is read as far as the digits go.
digits_length-append :
    (ds s : Bytes)
    → All (λ c. is_digit c ≡ true) ds
    → digits_length s ≡ 0
    → digits_length (ds ++ s) ≡ length ds
unfolding digits_length
digits_length-append [] s h e = e
digits_length-append (c ∷ ds) s h e = rw h.0 (ap suc (digits_length-append ds s h.1 e))

read_digits-append :
    (n : ℕ) (ds s : Bytes)
    → All (λ c. is_digit c ≡ true) ds
    → digits_length s ≡ 0
    → read_digits n (ds ++ s) ≡ read_digits n ds
unfolding digits_length read_digits
read_digits-append n [] [] h e = refl
read_digits-append n [] (c ∷ s) h e = ground (arith, e)
read_digits-append n (c ∷ ds) s h e = rw h.0 (read_digits-append (n * 10 + (c - b'0')) ds s h.1 e)

signed_number-digits :
    (ds s : Bytes)
    → All (λ c. is_digit c ≡ true) ds
    → 0 < length ds
    → digits_length s ≡ 0
    → signed_number (ds ++ s) ≡ some (false, read_digits 0 ds, s)
unfolding signed_number
signed_number-digits [] s h l e = absurd (omega (arith, l))
signed_number-digits (c ∷ ds) s h l e =
    let plus : (c == b'+') ≡ false = ground (arith, h.0) in
    let minus : (c == b'-') ≡ false = ground (arith, h.0) in
    let long : digits_length (c ∷ (ds ++ s)) ≡ suc (length ds) =
      digits_length-append (c ∷ ds) s h e in
    let behind : drop (suc (length ds)) (c ∷ (ds ++ s)) ≡ s = drop-full ds s in
    let value : read_digits 0 (c ∷ (ds ++ s)) ≡ read_digits 0 (c ∷ ds) =
      read_digits-append 0 (c ∷ ds) s h e in
    let found : (suc (length ds) == 0) ≡ false = ground arith in
    rw (minus, plus, long, behind, value, found) refl

-- A printed number is read whole, up to what is no digit.
pub signed_number-show :
    (n : ℕ) (s : Bytes) → digits_length s ≡ 0 → signed_number (show n ++ s) ≡ some (false, n, s)
signed_number-show n s e =
    signed_number-digits (show n) s (show-Digits n) (length-show n) e
    ∙ ap (λ k. some (false, k, s)) (read_digits-show n)

skip_space-digits :
    (ds s : Bytes)
    → All (λ c. is_digit c ≡ true) ds
    → 0 < length ds
    → skip_space (ds ++ s) ≡ ds ++ s
unfolding skip_space
skip_space-digits [] s h l = absurd (omega (arith, l))
skip_space-digits (c ∷ ds) s h l = ground (arith, h.0)

pub skip_space-show : (n : ℕ) (s : Bytes) → skip_space (show n ++ s) ≡ show n ++ s
skip_space-show n s = skip_space-digits (show n) s (show-Digits n) (length-show n)

-- White space in front of a printed number is passed over.
pub scan_number-show :
    (n : ℕ) (s : Bytes) → digits_length s ≡ 0 → scan_number (show n ++ s) ≡ some (false, n, s)
unfolding scan_number
scan_number-show n s e = rw (skip_space-show n s) (signed_number-show n s e)

-- The lines of a file, each shorter than the buffer, come back one by one.
abbrev pub joined : List Bytes → Bytes
joined [] = []
joined (t ∷ ts) = t ++ 10 ∷ joined ts

abbrev pub fed : List Bytes → List Bytes
fed [] = []
fed (t ∷ ts) = (t ++ 10 ∷ []) ∷ fed ts

pub fgets_lines-joined :
    (size : ℕ) (ts : List Bytes)
    → All (λ t. HasNoFeed t × (length t + 1 < size)) ts
    → fgets_lines size (joined ts) ≡ fed ts
unfolding fgets_lines fgets_from
fgets_lines-joined size [] h = refl
fgets_lines-joined size (t ∷ ts) h =
    fgets_from-line (size - 1) (size - 1) [] t (joined ts) h.0.0 (omega (arith, h.0.1))
    ∙ ap (λ k. (t ++ 10 ∷ []) ∷ k) (fgets_lines-joined size ts h.1)
