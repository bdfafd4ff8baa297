-- ===== src/Socket/Frame.antt =====
-- How src/Socket.cpp cuts the bytes of a connection into requests: a request ends with `</isr>`, and
-- a request of type 105 announces a payload behind it.
pub mod Append
pub mod Trip
use istatserverlinux.Prelude.{
  ℕ, suc, ◌+◌, ◌%◌, ◌^◌, Bool, true, false, List, [], ◌∷◌, Option, none, some, ltb, ◌==◌,
  if◌then◌else◌, length, take, drop,
}
use istatserverlinux.Prelude.Int.{ℤ, pos, eqb_ℤ}
use istatserverlinux.Text.{Bytes, codes, find}
use istatserverlinux.Text.Number.{atoi, strtoul}
use istatserverlinux.Xml.{Node, get_prop, has_name, Libs}

-- size_t has 64 bits.
abbrev pub size_mod : ℕ
size_mod = 2 ^ 64

-- Option of an attribute: its number is `n`.
abbrev pub is_number : Option Bytes → ℕ → Bool
is_number none n = false
is_number (some t) n = eqb_ℤ (atoi t) (pos n)

-- The length of the payload and whether it is compressed, for a framed request.
abbrev framing : Option Bytes → Bool → Option (ℕ × Bool)
framing none compressed = none
framing (some length) compressed = some (strtoul length, compressed)

unfoldable pub framed_root : Option Node → Option (ℕ × Bool)
framed_root none = none
framed_root (some root) =
    if has_name root (codes "isr")
    then (if is_number (get_prop root (codes "type")) 105
        then framing (get_prop root (codes "length")) (is_number (get_prop root (codes "c")) 1)
        else none)
    else none

unfoldable pub is_framed_payload : Libs → Bytes → Option (ℕ × Bool)
unfolding framed_root
is_framed_payload libs header = framed_root (libs.read_memory header)

abbrev text_or_empty : Option Bytes → Bytes
text_or_empty none = []
text_or_empty (some t) = t

-- compress_string and decompress_string: empty for an error of zlib.
unfoldable pub compress_string : Libs → Bytes → Bytes
compress_string libs str = text_or_empty (libs.deflate str)

unfoldable pub decompress_string : Libs → Bytes → Bytes
decompress_string libs str = text_or_empty (libs.inflate str)

-- One round of the loop of `receive` over the buffer: no end tag, a payload that is not all there, a
-- payload that zlib refuses, or a request and the bytes behind it.
pub data Round : Type 0 where
  no_tag : Round
  partial : Round
  skip : Bytes → Round
  message : Bytes → Bytes → Round

abbrev pub close_tag : Bytes
close_tag = codes "</isr>"

unpack : Libs → Bytes → Bytes → Round
unpack libs payload rest =
    let text = decompress_string libs payload in
    if length text == 0 then skip rest else message text rest

-- The sum of the lengths wraps at 2 ^ 64.
unfoldable pub framed_round : Libs → Bytes → ℕ → ℕ → Bool → Round
unfolding unpack
framed_round libs buf header_length payload_length compressed =
    let total = (header_length + payload_length) % size_mod in
    let payload = take payload_length (drop header_length buf) in
    let rest = drop total buf in
    if ltb (length buf) total
    then partial
    else if compressed
    then unpack libs payload rest
    else message payload rest

abbrev plain_or_framed : Libs → Bytes → ℕ → Option (ℕ × Bool) → Round
plain_or_framed libs buf header_length none =
    message (take header_length buf) (drop header_length buf)
plain_or_framed libs buf header_length (some (payload_length, compressed)) =
    framed_round libs buf header_length payload_length compressed

abbrev at_tag : Libs → Bytes → Option ℕ → Round
at_tag libs buf none = no_tag
at_tag libs buf (some position) =
    plain_or_framed libs buf (position + 6) (is_framed_payload libs (take (position + 6) buf))

unfoldable pub next_message : Libs → Bytes → Round
next_message libs buf = at_tag libs buf (find close_tag buf)
