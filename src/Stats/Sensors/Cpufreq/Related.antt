-- ===== src/Stats/Sensors/Cpufreq/Related.antt =====
-- The list of processors that src/stats/StatsSensors.cpp reads of related_cpus.
use istatserverlinux.Prelude.{
  ℕ, zero, suc, ◌+◌, ◌-◌, ◌<◌, ◌^◌, true, false, ◌||◌, List, [], ◌∷◌, ◌++◌, none, some, ◌==◌,
  length, ◌≡◌, refl, ap, sym, ◌∙◌, arith, All, append_assoc, append-nil,
}
use istatserverlinux.Prelude.Int.{ℤ, pos}
use istatserverlinux.Prelude.Outcome.{done, no_fuel}
use istatserverlinux.Text.{Bytes}
use istatserverlinux.Text.Number.{is_digit, show, show-Digits, length-show, clamp_long, to_int32}
use istatserverlinux.Text.Scan.{scan_number, digits_length}
use istatserverlinux.Text.Scan.Lines.{scan_number-show}
use istatserverlinux.Stats.Sensors.Cpufreq.{skip_blanks, range_end, ints_from, ints_to, parse_cpus}

-- "0 1 2 3"
abbrev pub shows : List ℕ → Bytes
shows [] = []
shows (n ∷ []) = show n
shows (n ∷ m ∷ ns) = show n ++ (32 ∷ shows (m ∷ ns))

abbrev pub ints : List ℕ → List ℤ
ints [] = []
ints (n ∷ ns) = pos n ∷ ints ns

ints_to_self : (n : ℕ) → ints_to (pos n) (pos n) ≡ pos n ∷ []
ints_to_self n =
    let one : n + 0 + 1 - (0 + n) ≡ 1 = omega arith in ap (λ k. ints_from k (pos n)) one

to_int32_small : (n : ℕ) → n < 2 ^ 31 → to_int32 (clamp_long false n) ≡ pos n
to_int32_small n h = ground (arith, h)

-- One round on digits that stand for n, in front of the end or a space.
round_of_digits :
    (ds s : Bytes) (n fuel : ℕ) (cpus : List ℤ)
    → All (λ c. is_digit c ≡ true) ds
    → 0 < length ds
    → scan_number (ds ++ s) ≡ some (false, n, s)
    → n < 2 ^ 31
    → range_end (pos n) s ≡ (pos n, s)
    → parse_cpus (suc fuel) (ds ++ s) cpus ≡ parse_cpus fuel s (cpus ++ pos n ∷ [])
unfolding parse_cpus
round_of_digits [] s n fuel cpus h l r b e = absurd (omega (arith, l))
round_of_digits (c ∷ ds) s n fuel cpus h l r b e =
    let stays : skip_blanks (c ∷ (ds ++ s)) ≡ c ∷ (ds ++ s) = ground (arith, h.0) in
    let number : scan_number (c ∷ (ds ++ s)) ≡ some (false, n, s) = r in
    rw (stays, parse_cpus, number, to_int32_small n b, e, ints_to_self n) refl

parse_cpus-space :
    (fuel : ℕ) (s : Bytes) (cpus : List ℤ) → parse_cpus fuel (32 ∷ s) cpus ≡ parse_cpus fuel s cpus
unfolding parse_cpus
parse_cpus-space zero s cpus = refl
parse_cpus-space (suc fuel) s cpus = refl

parse_cpus-shows_onto :
    (ns : List ℕ) (fuel : ℕ) (cpus : List ℤ)
    → All (λ n. n < 2 ^ 31) ns
    → length ns < fuel
    → parse_cpus fuel (shows ns) cpus ≡ done (cpus ++ ints ns)
unfolding parse_cpus digits_length
parse_cpus-shows_onto ns zero cpus h l = absurd (omega (arith, l))
parse_cpus-shows_onto [] (suc fuel) cpus h l = ap done (sym (append-nil cpus))
parse_cpus-shows_onto (n ∷ []) (suc fuel) cpus h l =
    let whole : show n ++ [] ≡ show n = append-nil (show n) in
    let last : parse_cpus fuel [] (cpus ++ pos n ∷ []) ≡ done (cpus ++ pos n ∷ []) =
      parse_cpus-shows_onto [] fuel (cpus ++ pos n ∷ []) tt (omega (arith, l))
      ∙ ap done (append-nil (cpus ++ pos n ∷ [])) in
    ap (λ s. parse_cpus (suc fuel) s cpus) (sym whole)
    ∙ round_of_digits (show n) [] n fuel cpus (show-Digits n) (length-show n)
        (scan_number-show n [] refl) h.0 refl
    ∙ last
parse_cpus-shows_onto (n ∷ m ∷ ns) (suc fuel) cpus h l =
    round_of_digits (show n) (32 ∷ shows (m ∷ ns)) n fuel cpus (show-Digits n) (length-show n)
      (scan_number-show n (32 ∷ shows (m ∷ ns)) refl) h.0 refl
    ∙ parse_cpus-space fuel (shows (m ∷ ns)) (cpus ++ pos n ∷ [])
    ∙ parse_cpus-shows_onto (m ∷ ns) fuel (cpus ++ pos n ∷ []) h.1 (omega (arith, l))
    ∙ ap done (append_assoc cpus (pos n ∷ []) (ints (m ∷ ns)))

-- The list of processors in related_cpus, printed with spaces between them, is read back, in as many
-- rounds as there are numbers and one.
pub parse_cpus-shows :
    (ns : List ℕ) (fuel : ℕ)
    → All (λ n. n < 2 ^ 31) ns
    → length ns < fuel
    → parse_cpus fuel (shows ns) [] ≡ done (ints ns)
parse_cpus-shows ns fuel h l = parse_cpus-shows_onto ns fuel [] h l

-- Where a text begins with what is no number, no blank and no minus sign, the loop never ends.
parse_cpus_hangs :
    (fuel c : ℕ) (s : Bytes) (cpus : List ℤ)
    → (c == 32 || c == 10 || c == 9 || c == b'-') ≡ false
    → scan_number (c ∷ s) ≡ none
    → parse_cpus fuel (c ∷ s) cpus ≡ no_fuel
unfolding parse_cpus
parse_cpus_hangs zero c s cpus h e = refl
parse_cpus_hangs (suc fuel) c s cpus h e =
    let stays : skip_blanks (c ∷ s) ≡ c ∷ s = ground (arith, h) in
    let plain : (c == b'-') ≡ false = ground (arith, h) in
    rw (stays, parse_cpus, e, plain) (parse_cpus_hangs fuel c s _ h e)
