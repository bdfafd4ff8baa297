-- ===== src/Responses/Samples.antt =====
-- The loop that every reply of src/Responses.cpp has: the samples of one deque that are newer than
-- the one the client names, turned round so that the oldest comes first.
pub mod Newest
use istatserverlinux.Prelude.{
  ℕ, suc, ◌-◌, ◌*◌, ◌/◌, Bool, List, [], ◌∷◌, ◌++◌, ltb, if◌then◌else◌, get_elem?,
}
use istatserverlinux.Prelude.Int.{ℤ, pos, negsuc, ltb_ℤ}
use istatserverlinux.Prelude.Outcome.{Outcome, deref}
use istatserverlinux.Text.{Bytes}
use istatserverlinux.Text.Number.{show}
use istatserverlinux.Stats.{Sample}

-- sample.sampleID > sampleID, where the bound is a double (in millionths).
abbrev pub newer_double : ℤ → ℕ → Bool
newer_double bound id = ltb_ℤ bound (pos (id * 1_000_000))

-- The conversion of that double to `long`, and the test against it.
abbrev pub to_long : ℤ → ℤ
to_long (pos n) = pos (n / 1_000_000)
to_long (negsuc n) = if ltb (suc n) 1_000_000 then pos 0 else negsuc ((suc n) / 1_000_000 - 1)

abbrev pub newer_long : ℤ → ℕ → Bool
newer_long bound id = ltb_ℤ bound (pos id)

module _ {V : Type 0} (newer : ℕ → Bool) where
  -- push_front for each newer sample, up to the first that is not.
  unfoldable pub collect : List (Sample V) → List (Sample V) → List (Sample V)
  collect out [] = out
  collect out (sample ∷ rest) =
      let on = collect (sample ∷ out) rest in if newer sample.sample_id then on else out

  abbrev pub newer_samples : List (Sample V) → List (Sample V)
  newer_samples = collect []

-- samples[x], an array of eight: reading past it is undefined.
abbrev pub at_index {ℓ} : {A : Type ℓ} → List A → ℕ → Outcome A
at_index xs x = deref (get_elem? xs x)

-- (long long)sample.time, in seconds
abbrev pub show_time : ℕ → Bytes
show_time t = show (t / 1_000_000)

-- What the stream operators put together.
unfoldable pub cat : List Bytes → Bytes
cat [] = []
cat (s ∷ rest) = s ++ cat rest

module _ {V : Type 0} (row : Sample V → Bytes) where
  -- One text for each sample.
  unfoldable pub rows : List (Sample V) → Bytes
  rows [] = []
  rows (sample ∷ rest) = row sample ++ rows rest
