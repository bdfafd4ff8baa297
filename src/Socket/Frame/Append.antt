-- ===== src/Socket/Frame/Append.antt =====
-- One round of the loop of `Socket::receive` of src/Socket.cpp, with more bytes behind the buffer.
use Prim.Native.Nat.add
use istatserverlinux.Prelude.{
  ℕ, zero, suc, ◌+◌, ◌%◌, ◌≤◌, ◌<◌, Bool, true, false, [], ◌∷◌, ◌++◌, Option, none, some, ◌≡◌, ◌≢◌,
  refl, inl, inr, arith, ltb, ◌==◌, if◌then◌else◌, length, take, drop, Bool-cases, Option-cases,
  length-append, length-drop, take-append, drop-append, ltb-false,
}
use istatserverlinux.Text.{Bytes, find, find_bound, find-append}
use istatserverlinux.Xml.{Libs}
use istatserverlinux.Socket.Frame.{
  is_framed_payload, framed_round, plain_or_framed, at_tag, next_message, Round, no_tag, partial,
  skip, message, close_tag, size_mod, unpack, decompress_string,
}

-- The first request of the buffer, if it is framed, ends below 2 ^ 64.
abbrev pub HeaderFits : Libs → Bytes → Type 0
HeaderFits libs buf =
    (position length : ℕ) (compressed : Bool)
    → find close_tag buf ≡ some position
    → is_framed_payload libs (take (position + 6) buf) ≡ some (length, compressed)
    → position + 6 + length < size_mod

-- So does every request that may come first later.
abbrev pub Fits : Libs → Bytes → Type 0
Fits libs buf = (n : ℕ) → HeaderFits libs (drop n buf)

-- What a round leaves.
abbrev pub later : Round → Bytes → Round
later no_tag b = no_tag
later partial b = partial
later (skip rest) b = skip (rest ++ b)
later (message text rest) b = message text (rest ++ b)

drop-drop : (m n : ℕ) (s : Bytes) → drop m (drop n s) ≡ drop (n + m) s
drop-drop m zero s = rw add.zero
drop-drop zero (suc n) [] = rw add.suc
drop-drop (suc m) (suc n) [] = rw add.suc
drop-drop m (suc n) (c ∷ s) = rw add.suc (drop-drop m n s)

pub Fits-drop : (libs : Libs) (buf : Bytes) (n : ℕ) → Fits libs buf → Fits libs (drop n buf)
Fits-drop libs buf n f m = rw (drop-drop m n buf) (f (n + m))

suc_not_zero : (n : ℕ) → (suc n == 0) ≡ false
suc_not_zero n = ground arith

below_mod : (t : ℕ) → t < size_mod → t % size_mod ≡ t
below_mod t h = omega arith

unpack-append :
    (libs : Libs) (payload rest b : Bytes)
    → unpack libs payload (rest ++ b) ≡ later (unpack libs payload rest) b
unfolding unpack
unpack-append libs payload rest b = ground arith

framed_round-append :
    (libs : Libs) (a b : Bytes) (h n : ℕ) (c : Bool)
    → h + n < size_mod
    → framed_round libs a h n c ≢ partial
    → framed_round libs (a ++ b) h n c ≡ later (framed_round libs a h n c) b
unfolding framed_round
framed_round-append libs a b h n c fit whole = elim (Bool-cases (ltb (length a) (h + n))) [
  | inl short ↦ absurd (whole (rw (below_mod (h + n) fit, short)))
  | inr long ↦
      let all : h + n ≤ length a = ground arith in
      rw
        (
          below_mod (h + n) fit,
          long,
          ltb-false (length (a ++ b)) (h + n) (omega (arith, length-append a b)),
          drop-append h a b (omega arith),
          take-append n (drop h a) b (omega (arith, length-drop h a)),
          drop-append (h + n) a b all,
        )
        (both c)
]
  where
    both :
        (c : Bool)
        → (if c
            then unpack libs (take n (drop h a)) (drop (h + n) a ++ b)
            else message (take n (drop h a)) (drop (h + n) a ++ b))
          ≡ later
              (if c
                then unpack libs (take n (drop h a)) (drop (h + n) a)
                else message (take n (drop h a)) (drop (h + n) a))
              b
    both true = unpack-append libs (take n (drop h a)) (drop (h + n) a) b
    both false = refl

module _ (libs : Libs) (a b : Bytes) where
  at_tag-append :
      (position : ℕ)
      → position + 6 ≤ length a
      → ((n : ℕ) (c : Bool)
          → is_framed_payload libs (take (position + 6) a) ≡ some (n, c)
          → position + 6 + n < size_mod)
      → at_tag libs a (some position) ≢ partial
      → at_tag libs (a ++ b) (some position) ≡ later (at_tag libs a (some position)) b
  at_tag-append position bound fits whole =
      rw (take-append (position + 6) a b bound) (framed _ refl whole)
    where
      framed :
          (r : Option (ℕ × Bool))
          → is_framed_payload libs (take (position + 6) a) ≡ r
          → plain_or_framed libs a (position + 6) r ≢ partial
          → plain_or_framed libs (a ++ b) (position + 6) r
            ≡ later (plain_or_framed libs a (position + 6) r) b
      framed none e w =
          rw (take-append (position + 6) a b bound, drop-append (position + 6) a b bound)
      framed (some (n, c)) e w = framed_round-append libs a b (position + 6) n c (fits n c e) w

  -- A request that is whole stays what it is when more bytes have come.
  pub next_message-append :
      HeaderFits libs a
      → next_message libs a ≢ no_tag
      → next_message libs a ≢ partial
      → next_message libs (a ++ b) ≡ later (next_message libs a) b
  unfolding next_message
  next_message-append fits tag whole = elim (Option-cases (find close_tag a)) [
    | inl e ↦ absurd (tag (rw e))
    | inr (position, e) ↦
        rw (e, find-append close_tag a b position e)
          (at_tag-append position (find_bound close_tag a position e) (λ n c. fits position n c e)
            (rw e at whole))
  ]

  -- More bytes do not take an end tag away.
  pub next_message-tag : next_message libs a ≢ no_tag → next_message libs (a ++ b) ≢ no_tag
  unfolding next_message framed_round unpack
  next_message-tag tag = elim (Option-cases (find close_tag a)) [
    | inl e ↦ absurd (tag (rw e))
    | inr (position, e) ↦ rw (find-append close_tag a b position e) (λ h. ground arith)
  ]

-- Where the longer buffer fits, so does the shorter.
pub Fits-append : (libs : Libs) (a b : Bytes) → Fits libs (a ++ b) → Fits libs a
Fits-append libs a b f n position len c e framed =
    let bound : position + 6 ≤ length (drop n a) = find_bound close_tag (drop n a) position e in
    let within : n ≤ length a = omega (arith, length-drop n a) in
    (rw (drop-append n a b within) at (f n)) position len c
      (find-append close_tag (drop n a) b position e)
      (rw (take-append (position + 6) (drop n a) b bound) framed)

-- `rest` is what is left of `buf` behind six bytes or more: the end tag has six.
pub record IsRest (buf rest : Bytes) : Type 0 where
  pub taken : ℕ
  pub six : 6 ≤ taken
  pub within : taken ≤ length buf
  pub rest_is : rest ≡ drop taken buf

abbrev pub Leaves : Bytes → Round → Type 0
Leaves buf no_tag = Unit {0}
Leaves buf partial = Unit {0}
Leaves buf (skip rest) = IsRest buf rest
Leaves buf (message text rest) = IsRest buf rest

framed_round-Leaves :
    (libs : Libs) (buf : Bytes) (h n : ℕ) (c : Bool)
    → 6 ≤ h
    → h + n < size_mod
    → Leaves buf (framed_round libs buf h n c)
unfolding framed_round unpack
framed_round-Leaves libs buf h n c six fit = elim (Bool-cases (ltb (length buf) (h + n))) [
  | inl short ↦ rw (below_mod (h + n) fit, short) tt
  | inr long ↦
      let rest : IsRest buf (drop (h + n) buf) = record {
        taken = h + n;
        six = omega arith;
        within = ground arith;
        rest_is = refl;
      } in
      rw (below_mod (h + n) fit, long) (both c rest)
]
  where
    unpacked :
        (t : Bytes)
        → IsRest buf (drop (h + n) buf)
        → Leaves buf
            (if length t == 0 then skip (drop (h + n) buf) else message t (drop (h + n) buf))
    unpacked [] r = r
    unpacked (x ∷ t) r = rw (suc_not_zero (length t)) r

    both :
        (c : Bool)
        → IsRest buf (drop (h + n) buf)
        → Leaves buf (
            if c
            then unpack libs (take n (drop h buf)) (drop (h + n) buf)
            else message (take n (drop h buf)) (drop (h + n) buf))
    both true r = unpacked (decompress_string libs (take n (drop h buf))) r
    both false r = r

pub next_message-Leaves :
    (libs : Libs) (buf : Bytes) → HeaderFits libs buf → Leaves buf (next_message libs buf)
unfolding next_message
next_message-Leaves libs buf fits = by_tag (find close_tag buf) refl
  where
    framed :
        (position : ℕ) (r : Option (ℕ × Bool))
        → find close_tag buf ≡ some position
        → is_framed_payload libs (take (position + 6) buf) ≡ r
        → Leaves buf (plain_or_framed libs buf (position + 6) r)
    framed position none e f = record {
      taken = position + 6;
      six = omega arith;
      within = find_bound close_tag buf position e;
      rest_is = refl;
    }
    framed position (some (n, c)) e f =
        framed_round-Leaves libs buf (position + 6) n c (omega arith) (fits position n c e f)

    by_tag : (o : Option ℕ) → find close_tag buf ≡ o → Leaves buf (at_tag libs buf o)
    by_tag none e = tt
    by_tag (some position) e = framed position _ e refl
