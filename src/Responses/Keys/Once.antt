-- ===== src/Responses/Keys/Once.antt =====
-- What `shouldAddKey` of src/Responses.cpp makes of a run of keys.
use istatserverlinux.Prelude.{
  ℕ, true, false, not, ◌&&◌, ◌||◌, List, [], ◌∷◌, ◌++◌, ◌≡◌, ◌≢◌, refl, sym, ap, ◌∙◌, arith, ◌==◌,
  if◌then◌else◌, Bool-cases, inl, inr, length, All, ◌⊎◌,
}
use istatserverlinux.Text.{Bytes, str_eq, str_eq_iff, str_eq_refl}
use istatserverlinux.Text.Number.{show, is_digit, show-Digits, read_digits, read_digits-show}
use istatserverlinux.Responses.Keys.{key_for_index, holds, should_add_key}

same_digits :
    (a b s t : Bytes)
    → All (λ c. is_digit c ≡ true) a
    → All (λ c. is_digit c ≡ true) b
    → a ++ b':' ∷ s ≡ b ++ b':' ∷ t
    → (a ≡ b) × (s ≡ t)
same_digits [] [] s t ha hb e = (refl, cc)
same_digits [] (d ∷ b) s t ha hb e = absurd (ground (arith, e, hb.0))
same_digits (c ∷ a) [] s t ha hb e = absurd (ground (arith, e, ha.0))
same_digits (c ∷ a) (d ∷ b) s t ha hb e = let (x, y) = same_digits a b s t ha.1 hb.1 cc in (cc, y)

-- The entry that stands for a key and an interval stands for no other key and no other interval.
pub key_for_index-injective :
    (uuid uuid' : Bytes) (index index' : ℕ)
    → key_for_index uuid index ≡ key_for_index uuid' index'
    → (uuid ≡ uuid') × (index ≡ index')
unfolding key_for_index
key_for_index-injective uuid uuid' index index' e =
    let (i, u) =
      same_digits (show index) (show index') uuid uuid' (show-Digits index) (show-Digits index')
        e in
    (u, sym (read_digits-show index) ∙ ap (read_digits 0) i ∙ read_digits-show index')

holds-concat :
    (keys : List Bytes) (k other : Bytes)
    → holds (keys ++ k ∷ []) other ≡ (if holds keys other then true else str_eq k other)
unfolding holds
holds-concat [] k other = ground arith
holds-concat (c ∷ keys) k other = ground (arith, holds-concat keys k other)

-- An item is in the reply for an interval just if it was not yet and the request names its key or
-- names none; and the call marks this item for this interval, if it is in the reply, and no other.
pub should_add_key_lem :
    (index : ℕ) (key : Bytes) (keys added : List Bytes)
    → ((should_add_key index key keys added).0
        ≡ (not (holds added (key_for_index key index)) && (length keys == 0 || holds keys key)))
      × ((other : Bytes) (index' : ℕ)
          → holds (should_add_key index key keys added).1 (key_for_index other index') ≡ (
              holds added (key_for_index other index')
              || (should_add_key index key keys added).0
                && str_eq (key_for_index key index) (key_for_index other index')))
unfolding should_add_key
should_add_key_lem index key keys added = (
  ground arith,
  λ other index'.
      ground (arith, holds-concat added (key_for_index key index) (key_for_index other index')),
)

different : (s t : Bytes) → s ≢ t → str_eq s t ≡ false
different s t ne = elim (Bool-cases (str_eq s t)) [
  | inl e ↦ absurd (ne ((str_eq_iff s t).0 e))
  | inr e ↦ e
]

-- Asked a second time for the same key and interval, whatever keys the second request names, the
-- answer is no, if it was yes the first time; for any other key or interval it is as if the first
-- request had not been.
pub should_add_key_once :
    (index index' : ℕ) (key key' : Bytes) (keys keys' added : List Bytes)
    → ((should_add_key index key keys added).0 ≡ true)
    → ((key ≡ key') × (index ≡ index')
        → (should_add_key index' key' keys' (should_add_key index key keys added).1).0 ≡ false)
      × ((key ≢ key') ⊎ (index ≢ index')
          → (should_add_key index' key' keys' (should_add_key index key keys added).1).0
            ≡ (should_add_key index' key' keys' added).0)
should_add_key_once index index' key key' keys keys' added asked =
    let first = should_add_key_lem index key keys added in
    let second = should_add_key_lem index' key' keys' (should_add_key index key keys added).1 in
    let before = should_add_key_lem index' key' keys' added in
    let k = key_for_index key index in
    let k' = key_for_index key' index' in
    (
      (λ (e, i).
          let same : k ≡ k' = cc in
          let equal : str_eq k k' ≡ true = rw same (str_eq_refl k') in
          ground (arith, second.0, first.1 key' index', asked, equal)),
      (λ other. ground (
        arith,
        second.0,
        before.0,
        first.1 key' index',
        asked,
        different k k' (λ e. elim other [
          | inl ne ↦ ne (key_for_index-injective key key' index index' e).0
          | inr ne ↦ ne (key_for_index-injective key key' index index' e).1
        ]),
      )),
    )
