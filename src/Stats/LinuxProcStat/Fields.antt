-- ===== src/Stats/LinuxProcStat/Fields.antt =====
-- The numbers of src/stats/LinuxProcStat.h and their arithmetic in 64 bits.
use istatserverlinux.Prelude.{
  ℕ, zero, suc, ◌+◌, ◌-◌, ◌*◌, ◌/◌, ◌%◌, ◌^◌, ◌≤◌, ◌<◌, true, not, ◌&&◌, [], ◌∷◌, none, some, ◌≡◌,
  ◌≢◌, refl, ◌⊎◌, inl, inr, arith, ltb, ◌==◌, if◌then◌else◌, All, Bool-cases, ltb→lt, lt→ltb,
}
use native.Mathlib.Nat.{div-lt_iff_lt-mul}
use istatserverlinux.Text.{Bytes}
use istatserverlinux.Text.Number.{is_digit, read_digits}
use istatserverlinux.Stats.LinuxProcStat.{
  LinuxProcStat, ull_max, parse_digits, parse_unsigned_proc_field, resident_bytes,
}

read_digits-le : (n : ℕ) (s : Bytes) → n ≤ read_digits n s
unfolding read_digits
read_digits-le n [] = omega arith
read_digits-le n (c ∷ s) = ground (arith, read_digits-le (n * 10 + (c - b'0')) s)

-- What the loop makes of a text, when it has read the number n so far.
abbrev IsRead : ℕ → Bytes → Type 0
IsRead n s =
    (All (λ c. is_digit c ≡ true) s)
      × (read_digits n s < 2 ^ 64)
      × (parse_digits n s ≡ some (read_digits n s))
    ⊎ (¬ (All (λ c. is_digit c ≡ true) s × (read_digits n s < 2 ^ 64))) × (parse_digits n s ≡ none)

parse_digits-IsRead : (n : ℕ) (s : Bytes) → n < 2 ^ 64 → IsRead n s
unfolding parse_digits read_digits
parse_digits-IsRead n [] h = inl (tt, h, refl)
parse_digits-IsRead n (c ∷ s) h = elim (Bool-cases (is_digit c)) [
  | inr e ↦ inr (λ (digits, small). cc (digits.0, e), rw e refl)
  | inl e ↦ elim (Bool-cases (ltb ((2 ^ 64 - 1 - (c - b'0')) / 10) n)) [
    | inl over ↦ inr (
      λ (digits, small).
          let big : 2 ^ 64 ≤ n * 10 + (c - b'0') = ground (arith, e, over) in
          ground (arith, e, small, read_digits-le (n * 10 + (c - b'0')) s),
      rw (e, over) refl,
    )
    | inr fits ↦
        let low : n * 10 + (c - b'0') < 2 ^ 64 = ground (arith, e, fits) in
        let same : (n * 10 + (c - b'0')) % 2 ^ 64 ≡ n * 10 + (c - b'0') = omega (arith, low) in
        elim (parse_digits-IsRead (n * 10 + (c - b'0')) s low) [
          | inl (digits, small, r) ↦ inl ((e, digits), rw e small, rw (e, fits, same, r) refl)
          | inr (bad, r) ↦
              inr (λ (digits, small). bad (digits.1, rw e at small), rw (e, fits, same, r) refl)
        ]
  ]
]

-- A field is read just if it is not empty, all digits, and its number is below 2 ^ 64; then it is
-- read as that number.
pub parse_unsigned_proc_field_lem :
    (text : Bytes)
    → (text ≢ [])
        × All (λ c. is_digit c ≡ true) text
        × (read_digits 0 text < 2 ^ 64)
        × (parse_unsigned_proc_field text ≡ some (read_digits 0 text))
      ⊎ (¬ ((text ≢ []) × All (λ c. is_digit c ≡ true) text × (read_digits 0 text < 2 ^ 64)))
        × (parse_unsigned_proc_field text ≡ none)
unfolding parse_unsigned_proc_field
parse_unsigned_proc_field_lem [] = inr (λ h. h.0 refl, refl)
parse_unsigned_proc_field_lem (c ∷ s) = elim (parse_digits-IsRead 0 (c ∷ s) (omega arith)) [
  | inl (digits, small, r) ↦ inl (λ e. cc, digits, small, rw r (ground arith))
  | inr (bad, r) ↦ inr (λ h. bad (h.1, h.2), rw r (ground arith))
]

-- The number of bytes is the product of pages and page size, just if the page size is not 0 and the
-- product is below 2 ^ 64.
pub resident_bytes_lem :
    (stat : LinuxProcStat) (page_size : ℕ)
    → resident_bytes stat page_size ≡ (
        if not (page_size == 0) && ltb (stat.resident_pages * page_size) (2 ^ 64)
        then some (stat.resident_pages * page_size)
        else none)
unfolding resident_bytes
resident_bytes_lem stat zero = refl
resident_bytes_lem stat (suc n) =
    let positive : 0 < suc n = omega arith in
    let over = div-lt_iff_lt-mul {k = suc n} {x = ull_max} {y = stat.resident_pages} positive in
    elim (Bool-cases (ltb (ull_max / suc n) stat.resident_pages)) [
      | inl e ↦
          let big : ull_max < stat.resident_pages * suc n = over.0 (ltb→lt _ _ e) in
          ground (arith, e, big)
      | inr e ↦
          let small : ¬ (ull_max < stat.resident_pages * suc n) =
            λ h. cc (lt→ltb _ _ (over.1 h), e) in
          ground (arith, e, small)
    ]
