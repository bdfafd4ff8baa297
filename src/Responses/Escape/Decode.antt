-- ===== src/Responses/Escape/Decode.antt =====
-- What a reader of the reply gets back from `encodeForXml` of src/Responses.cpp.
use istatserverlinux.Prelude.{
  ℕ, Bool, true, not, List, ◌&&◌, ◌||◌, [], ◌∷◌, ◌++◌, Option, none, some, ◌≡◌, refl, sym, ◌∙◌, ap,
  arith, ltb, leb, ◌==◌, if◌then◌else◌, All, All-append, All-if, append_assoc, append-nil,
}
use istatserverlinux.Text.{Bytes, codes, str_eq}
use istatserverlinux.Text.Number.{show, is_digit, show-Digits, read_digits, read_digits-show}
use istatserverlinux.Responses.Escape.{encode_byte, encode_for_xml}

-- The characters of XML 1.0, by their code points.
abbrev pub is_char : ℕ → Bool
is_char c =
    c == 9
    || c == 10
    || c == 13
    || (leb 32 c && leb c 55_295)
    || (leb 57_344 c && leb c 65_533)
    || (leb 65_536 c && leb c 1_114_111)

unfoldable pub are_digits : Bytes → Bool
are_digits [] = true
are_digits (c ∷ s) = is_digit c && are_digits s

-- The character that a number names; a reader refuses a number that names none.
abbrev pub numbered : Bytes → Option ℕ
numbered digits =
    let c = read_digits 0 digits in if are_digits digits && is_char c then some c else none

abbrev pub hashed : Bytes → Option ℕ
hashed [] = none
hashed (c ∷ digits) = if c == b'#' then numbered digits else none

-- The character that an entity stands for: one of the five names, or `#` and a number.
unfoldable pub entity : Bytes → Option ℕ
unfolding are_digits
entity e =
    if str_eq e (codes "amp")
    then some b'&'
    else if str_eq e (codes "lt")
    then some b'<'
    else if str_eq e (codes "gt")
    then some b'>'
    else if str_eq e (codes "quot")
    then some b'"'
    else if str_eq e (codes "apos")
    then some b'\''
    else hashed e

abbrev pub put_char : Option ℕ → Option (List ℕ) → Option (List ℕ)
put_char (some c) (some text) = some (c ∷ text)
put_char _ _ = none

-- A byte that stands for itself: white space reads as a blank, and an angle bracket or a quote, a
-- control byte and one that is not of ASCII are refused.
abbrev pub plain_char : ℕ → Option ℕ
plain_char c =
    if c == 9 || c == 10 || c == 13
    then some 32
    else if c == b'<' || c == b'"' || ltb c 32 || ltb 127 c
    then none
    else some c

-- What a reader of XML makes of the value of an attribute, as code points; inside of an entity, the
-- first argument holds what came of its name.
unfoldable pub decode : Option Bytes → Bytes → Option (List ℕ)
unfolding entity
decode none [] = some []
decode (some name) [] = none
decode none (c ∷ s) =
    let plain = decode none s in
    let inside = decode (some []) s in if c == b'&' then inside else put_char (plain_char c) plain
decode (some name) (c ∷ s) =
    let behind = decode none s in
    let inside = decode (some (name ++ c ∷ [])) s in
    if c == b';' then put_char (entity name) behind else inside

decode-digits :
    (name digits rest : Bytes)
    → All (λ c. is_digit c ≡ true) digits
    → decode (some name) (digits ++ b';' ∷ rest)
      ≡ put_char (entity (name ++ digits)) (decode none rest)
unfolding decode
decode-digits name [] rest h =
    ap (λ e. put_char (entity e) (decode none rest)) (sym (append-nil name))
decode-digits name (c ∷ digits) rest h =
    ground
      (arith, decode-digits (name ++ c ∷ []) digits rest h.1, append_assoc name (c ∷ []) digits)

are_digits_lem : (s : Bytes) → All (λ c. is_digit c ≡ true) s → are_digits s ≡ true
unfolding are_digits
are_digits_lem [] h = refl
are_digits_lem (c ∷ s) h = rw (h.0, are_digits_lem s h.1) refl

entity-number : (c : ℕ) → is_char c ≡ true → entity (b'#' ∷ show c) ≡ some c
unfolding entity str_eq
entity-number c h = rw (are_digits_lem (show c) (show-Digits c), read_digits-show c, h) refl

encode_byte_numbered :
    (c : ℕ) (rest : Bytes)
    → is_char c ≡ true
    → decode none ((codes "&#" ++ (show c ++ codes ";")) ++ rest)
      ≡ put_char (some c) (decode none rest)
unfolding decode
encode_byte_numbered c rest h = rw (append_assoc (show c) (codes ";") rest) (
    decode-digits (codes "#") (show c) rest (show-Digits c)
    ∙ ap (λ e. put_char e (decode none rest)) (entity-number c h))

-- A character of XML in ASCII, whose one byte is its code point.
abbrev pub is_ascii_char : ℕ → Bool
is_ascii_char c = is_char c && ltb c 128

decode-encode_byte :
    (c : ℕ) (rest : Bytes)
    → is_ascii_char c ≡ true
    → decode none (encode_byte c ++ rest) ≡ put_char (some c) (decode none rest)
unfolding encode_byte decode entity str_eq
decode-encode_byte c rest h =
    let char : is_char c ≡ true = ground (arith, h) in
    ground (arith, encode_byte_numbered c rest char)

-- A text of ASCII characters that XML has (tab, line feed, carriage return, and from 32 on) reads
-- back as it was: a reader of XML takes the encoded text, as the value of an attribute, for the
-- characters of the text.
pub decode-encode_for_xml :
    (s : Bytes) → All (λ c. is_ascii_char c ≡ true) s → decode none (encode_for_xml s) ≡ some s
unfolding encode_for_xml decode
decode-encode_for_xml [] h = refl
decode-encode_for_xml (c ∷ s) h =
    decode-encode_byte c (encode_for_xml s) h.0
    ∙ ap (put_char (some c)) (decode-encode_for_xml s h.1)

-- A byte that can stand in an attribute between quotes: printable, none of the quotes and brackets.
abbrev pub is_quotable : ℕ → Bool
is_quotable c = leb 32 c && leb c 127 && not (c == b'<' || c == b'>' || c == b'"' || c == b'\'')

digits_quotable : (s : Bytes) → All (λ c. is_digit c ≡ true) s → All (λ c. is_quotable c ≡ true) s
digits_quotable [] h = tt
digits_quotable (c ∷ s) h = (ground (arith, h.0), digits_quotable s h.1)

abbrev pub Quotable : Bytes → Type 0
Quotable = All (λ c. is_quotable c ≡ true)

numbered-Quotable : (c : ℕ) → Quotable (codes "&#" ++ (show c ++ codes ";"))
numbered-Quotable c = (
  refl,
  (
    refl,
    All-append (λ c. is_quotable c ≡ true) (show c) (codes ";")
        (digits_quotable (show c) (show-Digits c)) (refl, tt),
  ),
)

encode_byte-Quotable : (c : ℕ) → Quotable (encode_byte c)
unfolding encode_byte
encode_byte-Quotable c =
    All-if _ _ _ (c == b'&') (λ _. ground arith)
      (λ amp.
        All-if _ _ _ (c == b'<') (λ _. ground arith)
          (λ lt.
            All-if _ _ _ (c == b'>') (λ _. ground arith)
              (λ gt.
                All-if _ _ _ (c == b'"') (λ _. ground arith)
                  (λ quot.
                    All-if _ _ _ (c == b'\'') (λ _. ground arith)
                      (λ apos.
                        All-if _ _ _ (ltb c 32 || ltb 127 c) (λ _. numbered-Quotable c)
                          (λ range. (ground (arith, lt, gt, quot, apos, range), tt)))))))

-- Every byte of an encoded text is from 32 to 127, and none is a quote or an angle bracket: the text
-- cannot end the attribute or the tag that it stands in.
pub encode_for_xml-Quotable : (s : Bytes) → All (λ c. is_quotable c ≡ true) (encode_for_xml s)
unfolding encode_for_xml
encode_for_xml-Quotable [] = tt
encode_for_xml-Quotable (c ∷ s) =
    All-append (λ c. is_quotable c ≡ true) (encode_byte c) (encode_for_xml s)
      (encode_byte-Quotable c) (encode_for_xml-Quotable s)
