-- ===== src/Stats/Sensors/Rapl/Energy.antt =====
-- The energy that src/stats/StatsSensors.cpp counts over several readings of a counter that wraps.
use istatserverlinux.Prelude.{
  ℕ, ◌+◌, ◌-◌, ◌%◌, ◌≤◌, ◌<◌, List, [], ◌∷◌, ◌≡◌, ap, sym, ◌∙◌, arith, All, Bool-cases, inl, inr,
  leb,
}
use native.Mathlib.Nat.{mod-eq_of_lt, mod-eq-sub-mod, mod-add-mod}
use istatserverlinux.Prelude.Int.{ℤ, pos, pos_part}
use istatserverlinux.Stats.Sensors.Rapl.{delta_uj}

-- Readings of a counter that stays below its wrap, one after the other: the last one, and the sum of
-- the energies between them.
abbrev pub last_reading : ℕ → List ℕ → ℕ
last_reading last [] = last
last_reading last (uj ∷ readings) = last_reading uj readings

abbrev pub energies : ℕ → ℕ → List ℕ → List ℤ
energies wrap last [] = []
energies wrap last (uj ∷ readings) =
    delta_uj (pos wrap) (pos last) (pos uj) ∷ energies wrap uj readings

abbrev pub sum : List ℤ → ℕ
sum [] = 0
sum (d ∷ ds) = pos_part d + sum ds

abbrev pub IsBelow : ℕ → ℤ → Type 0
IsBelow wrap d = (n : ℕ) × (d ≡ pos n) × (n < wrap)

delta_uj_below :
    (wrap last uj : ℕ)
    → last < wrap
    → uj < wrap
    → (n : ℕ) × (delta_uj (pos wrap) (pos last) (pos uj) ≡ pos n)
      × (n < wrap)
      × ((last + n) % wrap ≡ uj)
unfolding delta_uj
delta_uj_below wrap last uj h k = elim (Bool-cases (leb last uj)) [
  | inl e ↦
      let up : last ≤ uj = ground (arith, e) in
      (
        uj - last,
        ground (arith, e),
        omega (arith, up, k),
        omega
            (arith, up, k, mod-eq_of_lt {n = last + (uj - last)} {m = wrap} (omega (arith, up, k))),
      )
  | inr e ↦
      let down : uj < last = ground (arith, e) in
      (
        uj + wrap - last,
        ground (arith, e),
        omega (arith, down, h),
        omega (
          arith,
          down,
          h,
          k,
          mod-eq-sub-mod {n = last + (uj + wrap - last)} {m = wrap} (omega (arith, down, h)),
          mod-eq_of_lt {n = last + (uj + wrap - last) - wrap} {m = wrap}
              (omega (arith, down, h, k)),
        ),
      )
]

-- Where all readings of the counter of a power domain stay below its wrap, the energy between any two
-- that follow one another is not negative and below the wrap, and the first reading and all the
-- energies together make up the last reading, modulo the wrap.
pub energies_lem :
    (wrap last : ℕ) (readings : List ℕ)
    → last < wrap
    → All (λ uj. uj < wrap) readings
    → All (IsBelow wrap) (energies wrap last readings)
      × ((last + sum (energies wrap last readings)) % wrap ≡ last_reading last readings)
energies_lem wrap last [] h a =
    let plain : last + 0 ≡ last = omega arith in (tt, ap (λ k. k % wrap) plain ∙ mod-eq_of_lt h)
energies_lem wrap last (uj ∷ readings) h a =
    let (n, e, below, reached) = delta_uj_below wrap last uj h a.0 in
    let (rest, all) = energies_lem wrap uj readings a.0 a.1 in
    let more = sum (energies wrap uj readings) in
    let regrouped : last + (n + more) ≡ last + n + more = omega arith in
    let moved : (last + (pos_part (delta_uj (pos wrap) (pos last) (pos uj)) + more)) % wrap
        ≡ (uj + more) % wrap =
      rw e (
        ap (λ k. k % wrap) regrouped
        ∙ sym (mod-add-mod (last + n) wrap more)
        ∙ ap (λ k. (k + more) % wrap) reached) in
    (((n, e, below), rest), moved ∙ all)
