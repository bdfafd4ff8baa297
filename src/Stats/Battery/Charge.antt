-- ===== src/Stats/Battery/Charge.antt =====
-- The charge that src/stats/StatsBattery.cpp gives of a battery.
use istatserverlinux.Prelude.{
  ℕ, zero, suc, ◌*◌, ◌/◌, ◌%◌, ◌≤◌, ◌<◌, true, ◌&&◌, leb, if◌then◌else◌, ◌≡◌, refl, ◌⊎◌, inl, inr,
  arith, Bool-cases, some,
}
use native.Mathlib.Nat.{div-eq_of_lt, le-div_iff_mul-le, div-lt_iff_lt-mul, mod-eq_of_lt}
use istatserverlinux.Prelude.Int.{ℤ, pos, negsuc, pos_part, eqb_ℤ}
use istatserverlinux.Stats.{Floats, BatteryInfo}
use istatserverlinux.Text.{Bytes}
use istatserverlinux.Text.Number.{to_int32}
use istatserverlinux.Text.Scan.{fgets_lines}
use istatserverlinux.Stats.Battery.{
  Reading, no_reading, minus_one, battery_lines, read_battery, update_battery, charge, at_most_100,
  is_positive, whole_percent,
}

-- The variables of the update behind the lines of a file.
abbrev pub reading_of : Bytes → Reading
reading_of file = battery_lines (fgets_lines 512 file) no_reading

at_most_100_bound : (p : ℤ) → pos_part (at_most_100 p) ≤ 100
at_most_100_bound p = ground arith

le-cases : (a b : ℕ) → (a ≤ b) ⊎ (b < a)
le-cases a b = elim (Bool-cases (leb a b)) [
  | inl h ↦ inl (ground arith)
  | inr h ↦ inr (ground arith)
]

-- The quotient, whose product with 100 does not wrap.
quotient_cases :
    (n d : ℕ)
    → 0 < d
    → n < 21_474_837 * d
    → (n < d) × (n / d ≡ 0) ⊎ (d ≤ n) × (1 ≤ n / d) × (n / d ≤ 21_474_836)
quotient_cases n d h w = elim (le-cases d n) [
  | inl p ↦
      let below : n / d < 21_474_837 = (div-lt_iff_lt-mul h).1 w in
      inr (p, (le-div_iff_mul-le h).1 (omega arith), omega (arith, below))
  | inr p ↦ inl (p, div-eq_of_lt p)
]

to_int32-small : (n : ℕ) → n < 2_147_483_648 → to_int32 (pos n) ≡ pos n
to_int32-small n h =
    let whole : n % 4_294_967_296 ≡ n = mod-eq_of_lt (omega arith) in rw whole (ground arith)

-- The whole quotient, as a number q.
capped_percent :
    (n d q : ℕ)
    → 0 < d
    → (n < d) × (q ≡ 0) ⊎ (d ≤ n) × (1 ≤ q) × (q ≤ 21_474_836)
    → at_most_100
        (if is_positive (pos d) && is_positive (pos n) then to_int32 (pos (q * 100)) else pos 0)
      ≡ pos (if is_positive (pos d) && leb d n then 100 else 0)
capped_percent n d q h c =
    let small : q ≤ 21_474_836 = ground arith in
    rw (to_int32-small (q * 100) (omega (arith, small))) (ground arith)

percent_lem :
    (now full : ℤ)
    → (is_positive full ≡ true → pos_part now < 21_474_837 * pos_part full)
    → at_most_100 (if is_positive full && is_positive now then whole_percent now full else pos 0)
      ≡ pos (if is_positive full && leb (pos_part full) (pos_part now) then 100 else 0)
percent_lem (pos n) (pos zero) w = refl
percent_lem (pos n) (pos (suc d)) w =
    capped_percent n (suc d) (n / suc d) (omega arith)
      (quotient_cases n (suc d) (omega arith) (w (ground arith)))
percent_lem (negsuc n) (pos d) w = ground arith
percent_lem (pos n) (negsuc d) w = ground arith
percent_lem (negsuc n) (negsuc d) w = ground arith

-- The percentage that is shown of a reading: where the file names no capacity, a battery is full
-- or empty.
abbrev pub shown_percentage : Reading → ℤ
shown_percentage r =
    if eqb_ℤ r.percentage minus_one
    then pos (
        if is_positive r.capacity_full && leb (pos_part r.capacity_full) (pos_part r.capacity_now)
        then 100
        else 0)
    else at_most_100 r.percentage

-- The product with 100 stays in an int.
abbrev pub HasRoom : Reading → Type 0
HasRoom r =
    eqb_ℤ r.percentage minus_one ≡ true
    → is_positive r.capacity_full ≡ true
    → pos_part r.capacity_now < 21_474_837 * pos_part r.capacity_full

percentage_lem : (r : Reading) → HasRoom r → at_most_100 (charge r) ≡ shown_percentage r
percentage_lem r w = elim (Bool-cases (eqb_ℤ r.percentage minus_one)) [
  | inl h ↦ rw h (percent_lem r.capacity_now r.capacity_full (w h))
  | inr h ↦ rw h refl
]

-- The update of a battery whose file can be opened marks it active and gives it a percentage of at
-- most 100: the capacity that the file names, cut at 100, and where the capacity is -1, which is
-- also the value without a line for it, 100 for a positive full energy that the present one has
-- reached and 0 otherwise. In that case the present energy must be less than 21474837 times a
-- positive full one, so that the product with 100 does not overflow.
pub update_battery-percentage :
    (f : Floats) (file : Bytes) (item : BatteryInfo)
    → HasRoom (reading_of file)
    → ((update_battery f (some file) item).active ≡ true)
      × ((update_battery f (some file) item).percentage ≡ shown_percentage (reading_of file))
      × (pos_part (update_battery f (some file) item).percentage ≤ 100)
unfolding read_battery
update_battery-percentage f file item w =
    (refl, percentage_lem (reading_of file) w, at_most_100_bound (charge (reading_of file)))
