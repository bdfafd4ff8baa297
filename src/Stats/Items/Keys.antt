-- ===== src/Stats/Items/Keys.antt =====
-- What the loops over `_items` keep.
use istatserverlinux.Prelude.{
  true, false, List, [], ◌∷◌, some, ◌≡◌, refl, arith, Bool-cases, inl, inr,
}
use istatserverlinux.Text.{Bytes, str_eq, str_eq_iff}
use istatserverlinux.Stats.Items.{has_key, find_key, change_first, change_all}

module _ {A : Type 0} (key_of : A → Bytes) where
  -- No two items have the same key.
  abbrev pub AreKeyed : List A → Type 0
  AreKeyed [] = Unit
  AreKeyed (a ∷ items) = (has_key key_of items (key_of a) ≡ false) × AreKeyed items

  pub find_key-has_key :
      (items : List A) (key : Bytes) (a : A)
      → find_key key_of items key ≡ some a
      → has_key key_of items key ≡ true
  unfolding find_key has_key
  find_key-has_key [] key a h = cc
  find_key-has_key (b ∷ items) key a h = elim (Bool-cases (str_eq (key_of b) key)) [
    | inl e ↦ rw e refl
    | inr e ↦ rw e (find_key-has_key items key a (rw e at h))
  ]

  module _ (f : A → A) (same : (a : A) → key_of (f a) ≡ key_of a) where
    pub has_key-change_first :
        (items : List A) (key other : Bytes)
        → has_key key_of (change_first key_of f items key) other ≡ has_key key_of items other
    unfolding has_key change_first
    has_key-change_first [] key other = refl
    has_key-change_first (a ∷ items) key other = elim (Bool-cases (str_eq (key_of a) key)) [
      | inl e ↦ rw (e, same a) refl
      | inr e ↦ rw (e, has_key-change_first items key other) refl
    ]

    pub change_first-AreKeyed :
        (items : List A) (key : Bytes) → AreKeyed items → AreKeyed (change_first key_of f items key)
    unfolding change_first
    change_first-AreKeyed [] key h = tt
    change_first-AreKeyed (a ∷ items) key h = elim (Bool-cases (str_eq (key_of a) key)) [
      | inl e ↦ rw e (rw (same a) h.0, h.1)
      | inr e ↦
          rw e (
            rw (has_key-change_first items key (key_of a)) h.0,
            change_first-AreKeyed items key h.1,
          )
    ]

    -- The first item with the key is the one that is changed.
    pub find_key-change_first :
        (items : List A) (key : Bytes) (a : A)
        → find_key key_of items key ≡ some a
        → find_key key_of (change_first key_of f items key) key ≡ some (f a)
    unfolding find_key change_first
    find_key-change_first [] key a h = cc
    find_key-change_first (b ∷ items) key a h = elim (Bool-cases (str_eq (key_of b) key)) [
      | inl e ↦ let this : some b ≡ some a = rw e at h in rw (e, same b, e) (ground (arith, this))
      | inr e ↦ rw (e, e) (find_key-change_first items key a (rw e at h))
    ]

    -- The items of other keys stay.
    pub find_key-change_first_ne :
        (items : List A) (key other : Bytes)
        → str_eq key other ≡ false
        → find_key key_of (change_first key_of f items key) other ≡ find_key key_of items other
    unfolding find_key change_first
    find_key-change_first_ne [] key other h = refl
    find_key-change_first_ne (b ∷ items) key other h = elim (Bool-cases (str_eq (key_of b) key)) [
      | inl e ↦
          let k : key_of b ≡ key = (str_eq_iff (key_of b) key).0 e in rw (e, same b, k, h) refl
      | inr e ↦ rw (e, find_key-change_first_ne items key other h) refl
    ]

    -- The change of every item with the key changes the first one.
    pub find_key-change_all :
        (items : List A) (key : Bytes) (a : A)
        → find_key key_of items key ≡ some a
        → find_key key_of (change_all key_of f items key) key ≡ some (f a)
    unfolding find_key change_all
    find_key-change_all [] key a h = cc
    find_key-change_all (b ∷ items) key a h = elim (Bool-cases (str_eq (key_of b) key)) [
      | inl e ↦ let this : some b ≡ some a = rw e at h in rw (e, same b, e) (ground (arith, this))
      | inr e ↦ rw (e, e) (find_key-change_all items key a (rw e at h))
    ]
