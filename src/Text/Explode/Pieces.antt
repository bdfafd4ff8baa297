-- ===== src/Text/Explode/Pieces.antt =====
-- `explode` of src/Utility.cpp at one delimiter, and a definition that reads byte by byte.
use istatserverlinux.Prelude.{
  ℕ, zero, suc, ◌+◌, ◌≤◌, ◌<◌, List, [], ◌∷◌, ◌++◌, none, some, ◌≡◌, ◌≢◌, refl, inl, inr, ◌∙◌, ap,
  sym, arith, ◌==◌, if◌then◌else◌, length, take, drop, Option-cases, length-drop, All, append_assoc,
  append-nil,
}
use istatserverlinux.Text.{Bytes}
use istatserverlinux.Text.Explode.{
  find_char, scan_delims, quote_end, keep_part, explode_loop, explode, result_of, part_of, or_else,
}

abbrev pub Lacks : ℕ → Bytes → Type 0
Lacks x = All (λ c. c ≢ x)

pub find_char-Lacks : (x : ℕ) (s : Bytes) → Lacks x s → find_char x s ≡ none
unfolding find_char
find_char-Lacks x [] h = refl
find_char-Lacks x (c ∷ s) h = ground (arith, find_char-Lacks x s h.1)

-- A piece that is not empty.
abbrev pub kept : Bytes → List Bytes
kept [] = []
kept (c ∷ s) = (c ∷ s) ∷ []

-- The pieces of `s` at the byte `x` that are not empty; `piece` is what was read of the first.
unfoldable pub pieces : ℕ → Bytes → Bytes → List Bytes
pieces x piece [] = kept piece
pieces x piece (c ∷ s) =
    let next = pieces x [] s in
    let on = pieces x (piece ++ c ∷ []) s in if c == x then kept piece ++ next else on

keep_part-kept : (ret : List Bytes) (s : Bytes) → keep_part ret s ≡ ret ++ kept s
keep_part-kept ret [] = sym (append-nil ret)
keep_part-kept ret (c ∷ s) = refl

pieces-none :
    (x : ℕ) (piece s : Bytes) → find_char x s ≡ none → pieces x piece s ≡ kept (piece ++ s)
unfolding pieces find_char
pieces-none x piece [] h = rw append-nil
pieces-none x piece (c ∷ s) h =
    ground (arith, pieces-none x (piece ++ c ∷ []) s, append_assoc piece (c ∷ []) s)

pieces-some :
    (x : ℕ) (piece s : Bytes) (p : ℕ)
    → find_char x s ≡ some p
    → pieces x piece s ≡ kept (piece ++ take p s) ++ pieces x [] (drop (suc p) s)
unfolding pieces find_char
pieces-some x piece [] p h = cc
pieces-some x piece (c ∷ s) zero h = ground (arith, append-nil piece)
pieces-some x piece (c ∷ s) (suc p) h =
    ground (arith, pieces-some x (piece ++ c ∷ []) s p, append_assoc piece (c ∷ []) (take p s))

find_char_bound : (x : ℕ) (s : Bytes) (p : ℕ) → find_char x s ≡ some p → p < length s
unfolding find_char
find_char_bound x [] p h = cc
find_char_bound x (c ∷ s) zero h = omega arith
find_char_bound x (c ∷ s) (suc p) h = ground (arith, find_char_bound x s p)

Lacks-drop : (x n : ℕ) (s : Bytes) → Lacks x s → Lacks x (drop n s)
Lacks-drop x zero s h = h
Lacks-drop x (suc n) [] h = tt
Lacks-drop x (suc n) (c ∷ s) h = Lacks-drop x n s h.1

quote_end-Lacks : (s : Bytes) → Lacks b'"' s → quote_end s ≡ none
unfolding quote_end
quote_end-Lacks [] h = refl
quote_end-Lacks (c ∷ s) h = ground arith

module _ (fuel x : ℕ) (s : Bytes) (ret : List Bytes) where
  explode_loop-last :
      find_char x s ≡ none
      → explode_loop (suc (suc fuel)) 0 (x ∷ []) s ret
        ≡ some (keep_part ret (part_of s (or_else (quote_end s) none)))
  unfolding explode_loop scan_delims
  explode_loop-last e = ground arith

  explode_loop-next :
      (p : ℕ)
      → find_char x s ≡ some p
      → quote_end s ≡ none
      → explode_loop (suc fuel) 0 (x ∷ []) s ret
        ≡ explode_loop fuel 0 (x ∷ []) (drop (suc p) s) (keep_part ret (take p s))
  unfolding explode_loop scan_delims
  explode_loop-next p e q = ground arith

explode_loop-pieces :
    (fuel x : ℕ) (s : Bytes) (ret : List Bytes)
    → length s + 2 ≤ fuel
    → Lacks b'"' s
    → explode_loop fuel 0 (x ∷ []) s ret ≡ some (ret ++ pieces x [] s)
explode_loop-pieces zero x s ret h q = absurd (omega arith)
explode_loop-pieces (suc zero) x s ret h q = absurd (omega arith)
explode_loop-pieces (suc (suc fuel)) x s ret h q = elim (Option-cases (find_char x s)) [
  | inl e ↦
      explode_loop-last fuel x s ret e
      ∙ rw (quote_end-Lacks s q)
          (ap some (keep_part-kept ret s ∙ ap (◌++◌ ret) (sym (pieces-none x [] s e))))
  | inr (p, e) ↦
      explode_loop-next (suc fuel) x s ret p e (quote_end-Lacks s q)
      ∙ explode_loop-pieces (suc fuel) x (drop (suc p) s) (keep_part ret (take p s))
          (omega (arith, length-drop (suc p) s, find_char_bound x s p e))
          (Lacks-drop b'"' (suc p) s q)
      ∙ ap some (
          rw (keep_part-kept ret (take p s), pieces-some x [] s p e)
            (append_assoc ret (kept (take p s)) _))
]

-- On a text with no quote, `explode` at one delimiter returns the pieces between delimiters that are
-- not empty, in their order.
pub explode-pieces : (x : ℕ) (s : Bytes) → Lacks b'"' s → explode s (x ∷ []) ≡ pieces x [] s
unfolding explode
explode-pieces x s q =
    ap result_of (explode_loop-pieces (suc (suc (length s))) x s [] (omega arith) q)

-- On a text with no delimiter there is at most one piece, quotes or not.
pub length-explode_le_one : (x : ℕ) (s : Bytes) → Lacks x s → length (explode s (x ∷ [])) ≤ 1
unfolding explode
length-explode_le_one x s h =
    rw (explode_loop-last (length s) x s [] (find_char-Lacks x s h))
      (one (part_of s (or_else (quote_end s) none)))
  where
    one : (t : Bytes) → length (keep_part [] t) ≤ 1
    one [] = omega arith
    one (c ∷ t) = omega arith

-- A piece up to its delimiter.
pub pieces-append :
    (x : ℕ) (piece s t : Bytes)
    → Lacks x s
    → pieces x piece (s ++ x ∷ t) ≡ kept (piece ++ s) ++ pieces x [] t
unfolding pieces
pieces-append x piece [] t h = ground (arith, append-nil piece)
pieces-append x piece (c ∷ s) t h =
    ground (arith, pieces-append x (piece ++ c ∷ []) s t h.1, append_assoc piece (c ∷ []) s)

pub pieces-Lacks : (x : ℕ) (s : Bytes) → Lacks x s → pieces x [] s ≡ kept s
pieces-Lacks x s h = pieces-none x [] s (find_char-Lacks x s h)
