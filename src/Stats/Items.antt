-- ===== src/Stats/Items.antt =====
-- The loops that the collectors of src/stats write out over the vector `_items`, by the key of an
-- item: the search that goes before an insertion in front, and the change of the first match.
pub mod Keys
use istatserverlinux.Prelude.{
  ℕ, zero, suc, ◌+◌, ◌-◌, ◌%◌, ◌^◌, ◌==◌, Bool, true, false, List, [], ◌∷◌, ◌++◌, Option, none,
  some, if◌then◌else◌,
}
use istatserverlinux.Text.{Bytes, str_eq}
use istatserverlinux.Stats.{Sample}

-- The difference of unsigned long long.
abbrev pub sub64 : ℕ → ℕ → ℕ
sub64 a b = (a + 2 ^ 64 - b) % 2 ^ 64

-- What a counter has counted: a last value of 0 stands for a counter that has not been read.
abbrev pub since : ℕ → ℕ → ℕ
since last now = if last == 0 then 0 else sub64 now last

module _ {A : Type 0} (key_of : A → Bytes) where
  unfoldable pub has_key : List A → Bytes → Bool
  unfolding str_eq
  has_key [] key = false
  has_key (a ∷ items) key = if str_eq (key_of a) key then true else has_key items key

  unfoldable pub find_key : List A → Bytes → Option A
  unfolding str_eq
  find_key [] key = none
  find_key (a ∷ items) key = if str_eq (key_of a) key then some a else find_key items key

  -- The change of the first item with the key; the loop breaks behind it.
  unfoldable pub change_first : (A → A) → List A → Bytes → List A
  unfolding str_eq
  change_first f [] key = []
  change_first f (a ∷ items) key =
      if str_eq (key_of a) key then f a ∷ items else a ∷ change_first f items key

  -- The change of every item with the key.
  unfoldable pub change_all : (A → A) → List A → Bytes → List A
  unfolding str_eq
  change_all f [] key = []
  change_all f (a ∷ items) key = (if str_eq (key_of a) key then f a else a) ∷ change_all f items key

module _ {V : Type 0} where
  -- push_front of each row of a query
  abbrev pub push_rows : List (Sample V) → List (Sample V) → List (Sample V)
  push_rows [] samples = samples
  push_rows (row ∷ rows) samples = push_rows rows (row ∷ samples)

  -- The deques of a new item: with a history, the seven long ones hold the rows of their tables.
  abbrev pub stored_samples : Bool → (ℕ → List (Sample V)) → List (List (Sample V))
  stored_samples false rows = [] ∷ [] ∷ [] ∷ [] ∷ [] ∷ [] ∷ [] ∷ [] ∷ []
  stored_samples true rows =
      []
      ∷ push_rows (rows 1) []
      ∷ push_rows (rows 2) []
      ∷ push_rows (rows 3) []
      ∷ push_rows (rows 4) []
      ∷ push_rows (rows 5) []
      ∷ push_rows (rows 6) []
      ∷ push_rows (rows 7) []
      ∷ []

  -- A change of samples[x]; an item has eight.
  abbrev pub change_at :
      ℕ → (List (Sample V) → List (Sample V)) → List (List (Sample V)) → List (List (Sample V))
  change_at x f [] = []
  change_at zero f (samples ∷ rest) = f samples ∷ rest
  change_at (suc x) f (samples ∷ rest) = samples ∷ change_at x f rest
