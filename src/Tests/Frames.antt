-- ===== src/Tests/Frames.antt =====
-- A frame on its way, with a reader of the two headers that a server sends.
use istatserverlinux.Prelude.{
  ℕ, Bool, true, false, [], ◌∷◌, ◌++◌, some, ◌≡◌, refl, arith, if◌then◌else◌, drop, ◌==◌, get_or,
  All,
}
use istatserverlinux.Text.{Bytes, codes}
use istatserverlinux.Text.Number.{is_digit, show, show-Digits}
use istatserverlinux.Xml.{Node, element, nil, Libs}
use istatserverlinux.Responses.Samples.{cat}
use istatserverlinux.Socket.Frame.{next_message, message}
use istatserverlinux.Socket.Frame.Trip.{ReadsFrames, FitsFrame, next_message-framed_texts}
use istatserverlinux.Socket.Request.{framed_texts}

-- The digits in front of a text, and whether the byte after next is that of a compressed frame.
abbrev front_digits : Bytes → Bytes
front_digits [] = []
front_digits (c ∷ s) = let rest = front_digits s in if is_digit c then c ∷ rest else []

abbrev has_tag : Bytes → Bool
has_tag [] = false
has_tag (c ∷ s) = let rest = has_tag s in if is_digit c then rest else get_or s 0 0 == b' '

abbrev header_root : Bytes → Node
header_root s =
    element (codes "isr")
      ((codes "type", codes "105")
        ∷ (codes "length", front_digits s)
        ∷ (if has_tag s then (codes "c", codes "1") ∷ [] else []))
      nil

-- It reads behind the 62 bytes that both headers begin with; nothing is packed.
abbrev frame_libs : Libs
frame_libs = record {
  read_memory = λ t. some (header_root (drop 62 t));
  deflate = λ t. some t;
  inflate = λ t. some t;
}

digits_first :
    (digits rest : Bytes) (c : ℕ)
    → All (λ d. is_digit d ≡ true) digits
    → is_digit c ≡ false
    → front_digits (digits ++ c ∷ rest) ≡ digits
digits_first [] rest c h e = rw e refl
digits_first (d ∷ digits) rest c h e = rw (h.0, digits_first digits rest c h.1 e) refl

tag_behind :
    (digits rest : Bytes) (c : ℕ)
    → All (λ d. is_digit d ≡ true) digits
    → is_digit c ≡ false
    → has_tag (digits ++ c ∷ rest) ≡ (get_or rest 0 0 == b' ')
tag_behind [] rest c h e = rw e refl
tag_behind (d ∷ digits) rest c h e = rw (h.0, tag_behind digits rest c h.1 e) refl

frame_libs-ReadsFrames : ReadsFrames frame_libs
frame_libs-ReadsFrames = record {
  plain = λ n.
      rw
        (
          digits_first (show n) (codes "></isr>") b'"' (show-Digits n) refl,
          tag_behind (show n) (codes "></isr>") b'"' (show-Digits n) refl,
        )
        refl;
  packed = λ n.
      rw
        (
          digits_first (show n) (codes " c=\"1\"></isr>") b'"' (show-Digits n) refl,
          tag_behind (show n) (codes " c=\"1\"></isr>") b'"' (show-Digits n) refl,
        )
        refl;
  inflates = λ text small e. cc;
}

abc-FitsFrame : FitsFrame frame_libs (codes "abc")
unfolding show
abc-FitsFrame =
    (omega arith, λ small e. let same : small ≡ codes "abc" = cc in rw same (omega arith))

next_message-framed_texts_example :
    next_message frame_libs (cat (framed_texts frame_libs (codes "abc")) ++ codes "<isr")
    ≡ message (codes "abc") (codes "<isr")
next_message-framed_texts_example =
    next_message-framed_texts frame_libs (codes "abc") (codes "<isr") frame_libs-ReadsFrames
      (λ e. cc) abc-FitsFrame
