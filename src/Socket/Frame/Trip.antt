-- ===== src/Socket/Frame/Trip.antt =====
-- A frame as `Socket::parse` of src/Socket.cpp sends it, cut by the loop that receives frames.
use istatserverlinux.Prelude.{
  ℕ, ◌+◌, ◌-◌, ◌%◌, ◌^◌, ◌≤◌, ◌<◌, Bool, true, false, [], ◌∷◌, ◌++◌, some, ◌≡◌, ◌≢◌, refl, sym, ap,
  ◌∙◌, arith, ltb-false, ◌==◌, if◌then◌else◌, length, take-full, drop-full, length-append,
  append_assoc, append-nil, Option-cases, Bool-cases, inl, inr, All,
}
use istatserverlinux.Text.{Bytes, codes, str_eq, find, find-append, is_prefix}
use istatserverlinux.Text.Number.{is_digit, show, show-Digits, atoi, strtoul-show}
use istatserverlinux.Xml.{element, nil, get_prop, has_name, Libs}
use istatserverlinux.Socket.Frame.{
  size_mod, is_framed_payload, framed_root, framed_round, next_message, message, close_tag, unpack,
  compress_string, decompress_string,
}
use istatserverlinux.Responses.Samples.{cat}
use istatserverlinux.Socket.Request.{frame_header, framed_texts}

abbrev pub packed_tag : Bytes
packed_tag = codes " c=\"1\""

-- How libxml reads the headers of the two kinds of frame, and that zlib gives back what it packed.
pub record ReadsFrames (libs : Libs) : Type 0 where
  pub plain :
      (n : ℕ)
      → libs.read_memory (frame_header n [])
        ≡ some (
            element (codes "isr") ((codes "type", codes "105") ∷ (codes "length", show n) ∷ []) nil)
  pub packed :
      (n : ℕ)
      → libs.read_memory (frame_header n packed_tag)
        ≡ some (
            element
              (codes "isr")
              ((codes "type", codes "105") ∷ (codes "length", show n) ∷ (codes "c", codes "1") ∷ [])
              nil)
  pub inflates :
      (text small : Bytes) → libs.deflate text ≡ some small → libs.inflate small ≡ some text

-- A byte that is no angle bracket begins no end tag.
find-digits :
    (digits rest : Bytes) (i : ℕ)
    → All (λ c. is_digit c ≡ true) digits
    → find close_tag rest ≡ some i
    → find close_tag (digits ++ rest) ≡ some (length digits + i)
unfolding find is_prefix
find-digits [] rest i h e = e ∙ ap some (omega arith)
find-digits (c ∷ digits) rest i h e = ground (arith, find-digits digits rest i h.1 e, h.0)

plain_header-find :
    (n : ℕ) → find close_tag (frame_header n []) ≡ some (length (frame_header n []) - 6)
unfolding find is_prefix
plain_header-find n =
    rw (find-digits (show n) (codes "\"></isr>") 2 (show-Digits n) refl)
      (ap some (omega (arith, length-append (show n) (codes "\"></isr>"))))

packed_header-find :
    (n : ℕ)
    → find close_tag (frame_header n packed_tag) ≡ some (length (frame_header n packed_tag) - 6)
unfolding find is_prefix
packed_header-find n =
    rw (find-digits (show n) (codes "\" c=\"1\"></isr>") 8 (show-Digits n) refl)
      (ap some (omega (arith, length-append (show n) (codes "\" c=\"1\"></isr>"))))

module _ (libs : Libs) (reads : ReadsFrames libs) where
  plain_header-framing :
      (n : ℕ) → n < 2 ^ 64 → is_framed_payload libs (frame_header n []) ≡ some (n, false)
  unfolding is_framed_payload framed_root has_name get_prop str_eq atoi
  plain_header-framing n h = rw (reads.plain n, strtoul-show n h) refl

  packed_header-framing :
      (n : ℕ) → n < 2 ^ 64 → is_framed_payload libs (frame_header n packed_tag) ≡ some (n, true)
  unfolding is_framed_payload framed_root has_name get_prop str_eq atoi
  packed_header-framing n h = rw (reads.packed n, strtoul-show n h) refl

  -- A frame behind its header is one round.
  next_message-frame :
      (header payload rest : Bytes) (compressed : Bool)
      → 6 ≤ length header
      → find close_tag header ≡ some (length header - 6)
      → is_framed_payload libs header ≡ some (length payload, compressed)
      → length header + length payload < size_mod
      → next_message libs (header ++ (payload ++ rest))
        ≡ (if compressed then unpack libs payload rest else message payload rest)
  unfolding next_message framed_round
  next_message-frame header payload rest compressed six e framing fits =
      let whole : length header - 6 + 6 ≡ length header = omega (arith, six) in
      let total : (length header + length payload) % size_mod ≡ length (header ++ payload) =
        omega (arith, fits, length-append header payload) in
      rw
        (
          find-append close_tag header (payload ++ rest) (length header - 6) e,
          whole,
          take-full header (payload ++ rest),
          framing,
          total,
          drop-full header (payload ++ rest),
          take-full payload rest,
          ltb-false (length (header ++ (payload ++ rest))) (length (header ++ payload)) (
              omega (
                arith,
                length-append header payload,
                length-append header (payload ++ rest),
                length-append payload rest,
              )),
          sym (append_assoc header payload rest),
          drop-full (header ++ payload) rest,
        )
        refl

  -- What goes on the wire for a header and a payload, and what follows it.
  on_wire :
      (header payload rest : Bytes)
      → cat (header ∷ payload ∷ []) ++ rest ≡ header ++ (payload ++ rest)
  unfolding cat
  on_wire header payload rest =
      append_assoc header (payload ++ []) rest
      ∙ ap (λ p. header ++ (p ++ rest)) (append-nil payload)

  plain-Trip :
      (text rest : Bytes)
      → length (frame_header (length text) []) + length text < size_mod
      → next_message libs (cat (frame_header (length text) [] ∷ text ∷ []) ++ rest)
        ≡ message text rest
  plain-Trip text rest fits = rw (on_wire (frame_header (length text) []) text rest) (
      next_message-frame (frame_header (length text) []) text rest false (omega arith)
        (plain_header-find (length text)) (plain_header-framing (length text) (omega (arith, fits)))
        fits)

  packed-Trip :
      (text small rest : Bytes)
      → text ≢ []
      → libs.deflate text ≡ some small
      → length (frame_header (length small) packed_tag) + length small < size_mod
      → next_message libs (cat (frame_header (length small) packed_tag ∷ small ∷ []) ++ rest)
        ≡ message text rest
  unfolding unpack decompress_string
  packed-Trip [] small rest full e fits = absurd (full refl)
  packed-Trip (c ∷ text) small rest full e fits =
      rw (on_wire (frame_header (length small) packed_tag) small rest) (
        next_message-frame (frame_header (length small) packed_tag) small rest true (omega arith)
          (packed_header-find (length small))
          (packed_header-framing (length small) (omega (arith, fits))) fits
        ∙ rw (reads.inflates (c ∷ text) small e) (ground arith))

-- Both texts of a frame together fit in 64 bits.
abbrev pub FitsFrame : Libs → Bytes → Type 0
FitsFrame libs text =
    (length (frame_header (length text) []) + length text < size_mod)
    × ((small : Bytes)
        → libs.deflate text ≡ some small
        → length (frame_header (length small) packed_tag) + length small < size_mod)

-- The two texts that answer a request for data, compressed or not, one behind the other and whatever
-- follows, are one message for the loop that receives frames, with the text that was sent; where
-- that is not empty, the lengths fit in 64 bits, libxml reads the headers and zlib gives back what
-- it packed.
pub next_message-framed_texts :
    (libs : Libs) (text rest : Bytes)
    → ReadsFrames libs
    → text ≢ []
    → FitsFrame libs text
    → next_message libs (cat (framed_texts libs text) ++ rest) ≡ message text rest
unfolding framed_texts compress_string
next_message-framed_texts libs text rest reads full fits = elim (Option-cases (libs.deflate text)) [
  | inl e ↦ rw e (plain-Trip libs reads text rest fits.0)
  | inr (small, e) ↦ elim (Bool-cases (length small == 0)) [
    | inl empty ↦ rw (e, empty) (plain-Trip libs reads text rest fits.0)
    | inr some_bytes ↦
        rw (e, some_bytes) (packed-Trip libs reads text small rest full e (fits.1 small e))
  ]
]
