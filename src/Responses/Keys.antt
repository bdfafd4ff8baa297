-- ===== src/Responses/Keys.antt =====
-- `keyForIndex`, `shouldAddKey` and `keyWasRequested` of src/Responses.cpp: which items a request
-- asks for, each key at most once per interval.
pub mod Once
use istatserverlinux.Prelude.{
  ℕ, Bool, true, false, ◌||◌, List, [], ◌∷◌, ◌++◌, ◌==◌, if◌then◌else◌, length,
}
use istatserverlinux.Text.{Bytes, str_eq}
use istatserverlinux.Text.Number.{show}

unfoldable pub key_for_index : Bytes → ℕ → Bytes
key_for_index uuid index = show index ++ b':' ∷ uuid

unfoldable pub holds : List Bytes → Bytes → Bool
holds [] key = false
holds (k ∷ keys) key = if str_eq k key then true else holds keys key

unfoldable pub key_was_requested : Bytes → List Bytes → Bool
unfolding holds
key_was_requested key keys = if length keys == 0 then true else holds keys key

-- The answer, and the keys added so far.
unfoldable pub should_add_key : ℕ → Bytes → List Bytes → List Bytes → Bool × List Bytes
unfolding key_for_index holds
should_add_key index key keys added =
    let k = key_for_index key index in
    if holds added k
    then (false, added)
    else if length keys == 0 || holds keys key
    then (true, added ++ k ∷ [])
    else (false, added)
