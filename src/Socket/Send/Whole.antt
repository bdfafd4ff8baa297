-- ===== src/Socket/Send/Whole.antt =====
-- What a secure `send` of src/Socket.cpp puts on the wire.
use istatserverlinux.Prelude.{
  ℕ, zero, suc, ◌+◌, ◌-◌, ◌≤◌, ◌<◌, true, false, [], ◌∷◌, ◌++◌, ◌≡◌, ◌≢◌, refl, sym, ap, ◌∙◌, ◌⊎◌,
  inl, inr, arith, ltb, ◌==◌, length, take, drop, length-drop, length-take, take-append-drop,
  append_assoc, append-nil, Bool-cases, ltb-false, subst, Option,
}
use istatserverlinux.Prelude.Int.{ℤ, pos, negsuc}
use istatserverlinux.Prelude.Outcome.{done}
use istatserverlinux.Text.{Bytes}
use istatserverlinux.Socket.Send.{
  Write, wrote, want, gone, Sent, chunk, after_write, send_loop, send,
}

-- Given 1 to 8192 bytes, SSL_write takes at least one and at most all of them, or fails; and from
-- the call `patience` on it does not ask to be called again.
pub record IsHonest (ssl_write : ℕ → Bytes → Write) (patience : ℕ) : Type 0 where
  pub takes :
      (call n : ℕ) (text : Bytes)
      → 0 < length text
      → length text ≤ 8192
      → ssl_write call text ≡ wrote n
      → (0 < n) × (n ≤ length text)
  pub settles :
      (call : ℕ) (text : Bytes)
      → 0 < length text
      → length text ≤ 8192
      → patience ≤ call
      → ssl_write call text ≢ want

-- All the data is on the wire, or the beginning of it and 0 is returned.
abbrev pub IsSent : Bytes → Sent → Type 0
IsSent all s =
    (s.wire ≡ all) ⊎ ((rest : Bytes) × (all ≡ s.wire ++ rest) × (rest ≢ []) × (s.code ≡ pos 0))

take-take : (m n : ℕ) (s : Bytes) → m ≤ n → take m (take n s) ≡ take m s
take-take zero n s h = refl
take-take (suc m) zero s h = absurd (omega arith)
take-take (suc m) (suc n) [] h = refl
take-take (suc m) (suc n) (c ∷ s) h = ap (◌∷◌ c) (take-take m n s (omega (arith, h)))

chunk-length : (text : Bytes) → (length (chunk text) ≤ 8192) × (length (chunk text) ≤ length text)
chunk-length text = elim (Bool-cases (ltb 8192 (length text))) [
  | inl e ↦ rw e (omega (arith, length-take 8192 text), omega (arith, length-take 8192 text))
  | inr e ↦ rw e (ground (arith, e), omega arith)
]

chunk-positive : (text : Bytes) → (length text == 0) ≡ false → 0 < length (chunk text)
chunk-positive text h = elim (Bool-cases (ltb 8192 (length text))) [
  | inl e ↦ rw e (ground (arith, e, length-take 8192 text))
  | inr e ↦ rw e (ground (arith, h))
]

take-chunk : (n : ℕ) (text : Bytes) → n ≤ length (chunk text) → take n (chunk text) ≡ take n text
take-chunk n text h = elim (Bool-cases (ltb 8192 (length text))) [
  | inl e ↦ rw e (take-take n 8192 text (omega (arith, chunk-length text, h)))
  | inr e ↦ rw e refl
]

module _ (ssl_write : ℕ → Bytes → Write) (patience : ℕ) (honest : IsHonest ssl_write patience) where
  -- What one more call takes is the beginning of what is left.
  sent_on :
      (wire text : Bytes) (n : ℕ) (s : Sent)
      → n ≤ length (chunk text)
      → IsSent ((wire ++ take n (chunk text)) ++ drop n text) s
      → IsSent (wire ++ text) s
  sent_on wire text n s h =
      subst (λ all. IsSent all s)
        (rw (take-chunk n text h) (
          append_assoc wire (take n text) (drop n text) ∙ ap (◌++◌ wire) (take-append-drop n text)))

  abbrev Returns : ℕ → ℕ → Bytes → Bytes → ℤ → Type 0
  Returns fuel call text wire r =
      (s : Sent) × (send_loop ssl_write fuel call text wire r ≡ done s) × IsSent (wire ++ text) s

  nothing_left : (wire text : Bytes) → (length text == 0) ≡ true → wire ++ text ≡ wire
  nothing_left wire [] e = append-nil wire
  nothing_left wire (c ∷ text) e = absurd (ground arith)

  early :
      (call : ℕ) (text : Bytes)
      → (length text == 0) ≡ false
      → ssl_write call (chunk text) ≡ want
      → call < patience
  early call text full e = elim (Bool-cases (ltb call patience)) [
    | inl t ↦ ground (arith, t)
    | inr f ↦ absurd (
        honest.settles call (chunk text) (chunk-positive text full) (chunk-length text).0
          (ground (arith, f)) e)
  ]

  after_write-Returns :
      (fuel call : ℕ) (text wire : Bytes) (r : ℤ) (w : Write)
      → ssl_write call (chunk text) ≡ w
      → (length text == 0) ≡ false
      → (patience - call) + length text < suc fuel
      → ((rest wire' : Bytes) (r' : ℤ)
          → (patience - suc call) + length rest < fuel
          → Returns fuel (suc call) rest wire' r')
      → Returns (suc fuel) call text wire r
  unfolding send_loop after_write
  after_write-Returns fuel call text wire r (wrote n) e full h on =
      let (positive, within) =
        honest.takes call n (chunk text) (chunk-positive text full) (chunk-length text).0 e in
      let (s, f, sent) =
        on (drop n text) (wire ++ take n (chunk text)) (pos n)
          (omega (arith, h, length-drop n text, chunk-length text, positive, within)) in
      (
        s,
        rw (full, e, ltb-false (length text) n (omega (arith, chunk-length text, within))) f,
        sent_on wire text n s within sent,
      )
  after_write-Returns fuel call text wire r want e full h on =
      let (s, f, sent) = on text wire (negsuc 0) (omega (arith, h, early call text full e)) in
      (s, rw (full, e) f, sent)
  after_write-Returns fuel call text wire r gone e full h on = (
    record { wire = wire; code = pos 0 },
    rw (full, e) refl,
    inr (text, refl, ground arith, refl),
  )

  send_loop-Returns :
      (fuel call : ℕ) (text wire : Bytes) (r : ℤ)
      → (patience - call) + length text < fuel
      → Returns fuel call text wire r
  unfolding send_loop
  send_loop-Returns zero call text wire r h = absurd (omega arith)
  send_loop-Returns (suc fuel) call text wire r h = elim (Bool-cases (length text == 0)) [
    | inl e ↦ (record { wire = wire; code = r }, rw e refl, inl (sym (nothing_left wire text e)))
    | inr e ↦
        after_write-Returns fuel call text wire r (ssl_write call (chunk text)) refl e h
          (send_loop-Returns fuel (suc call))
  ]

-- Where SSL_write takes some of each chunk of 1 to 8192 bytes or fails, and wants to be repeated
-- only in its first calls, a secure `send` returns, with as many rounds as these calls and the bytes
-- and one: all the data is on the wire, or a beginning of it and the result is 0.
pub send-IsSent :
    (ssl_write : ℕ → Bytes → Write) (plain_send : Bytes → Option ℕ) (patience fuel : ℕ)
    (text : Bytes)
    → IsHonest ssl_write patience
    → patience + length text < fuel
    → (s : Sent) × (send ssl_write plain_send fuel true text ≡ done s) × IsSent text s
unfolding send
send-IsSent ssl_write plain_send patience fuel text honest h =
    send_loop-Returns ssl_write patience honest fuel 0 text [] (pos 0) (omega (arith, h))
