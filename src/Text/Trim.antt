-- ===== src/Text/Trim.antt =====
-- `trim` of src/Utility.cpp, and the searches of std::string that it calls.
pub mod Edges
use istatserverlinux.Prelude.{
  ℕ, zero, suc, Bool, true, false, List, [], ◌∷◌, Option, none, some, ◌==◌, if◌then◌else◌, take,
  drop, ◌≡◌, refl,
}
use istatserverlinux.Text.{Bytes, codes, shift}

-- Whether a byte is one of the set.
unfoldable pub one_of : Bytes → ℕ → Bool
one_of [] c = false
one_of (x ∷ set) c = if x == c then true else one_of set c

-- find_first_of(set)
unfoldable pub find_first_of : Bytes → Bytes → Option ℕ
unfolding one_of
find_first_of set [] = none
find_first_of set (c ∷ s) = if one_of set c then some 0 else shift (find_first_of set s)

-- find_first_not_of(set)
unfoldable pub find_first_not_of : Bytes → Bytes → Option ℕ
unfolding one_of
find_first_not_of set [] = none
find_first_not_of set (c ∷ s) = if one_of set c then shift (find_first_not_of set s) else some 0

-- find_last_not_of(set)
unfoldable pub find_last_not_of : Bytes → Bytes → Option ℕ
unfolding one_of
find_last_not_of set [] = none
find_last_not_of set (c ∷ s) = elim (find_last_not_of set s) [
  | some i ↦ some (suc i)
  | none ↦ if one_of set c then none else some 0
]

-- if (index != npos) result.erase(++index)
abbrev pub cut_behind : Bytes → Option ℕ → Bytes
cut_behind s none = s
cut_behind s (some i) = take (suc i) s

-- result.erase(0, index), or all of it
abbrev pub cut_before : Bytes → Option ℕ → Bytes
cut_before s none = []
cut_before s (some i) = drop i s

unfoldable pub trim : Bytes → Bytes → Bytes
unfolding find_first_not_of find_last_not_of
trim source delim =
    let result = cut_behind source (find_last_not_of delim source) in
    cut_before result (find_first_not_of delim result)

-- The default of the second argument.
abbrev pub blanks : Bytes
blanks = codes " \t\r\n"

trim_run : (trim (codes "  a b\t") blanks ≡ codes "a b") × (trim (codes " \n") blanks ≡ [])
unfolding trim
trim_run = (refl, refl)
