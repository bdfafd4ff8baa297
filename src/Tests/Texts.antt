-- ===== src/Tests/Texts.antt =====
-- Texts, escapes and keys at concrete inputs.
use istatserverlinux.Prelude.{some, none, ℕ, true, [], ◌∷◌, none, ◌≡◌, refl, arith, All}
use istatserverlinux.Text.Number.{show, read_digits}
use istatserverlinux.Text.{codes, str_eq}
use istatserverlinux.Text.Explode.{explode}
use istatserverlinux.Text.Explode.Pieces.{pieces, explode-pieces}
use istatserverlinux.Responses.Escape.{encode_byte, encode_for_xml}
use istatserverlinux.Responses.Escape.Decode.{
  are_digits, entity, decode, decode-encode_for_xml, is_quotable, encode_for_xml-Quotable,
}
use istatserverlinux.Responses.Keys.{should_add_key, holds}

explode-pieces_example : explode (codes "a::b") (codes ":") ≡ codes "a" ∷ codes "b" ∷ []
unfolding pieces
explode-pieces_example = explode-pieces b':' (codes "a::b") (ground arith)

decode-encode_for_xml_example :
    decode none (encode_for_xml (codes "a<&\n\"b")) ≡ some (codes "a<&\n\"b")
decode-encode_for_xml_example =
    decode-encode_for_xml (codes "a<&\n\"b") (refl, (refl, (refl, (refl, (refl, (refl, tt))))))

-- A control byte is encoded as a number that XML refuses, and the two bytes of one letter as two.
control_byte : decode none (encode_for_xml (1 ∷ [])) ≡ none
unfolding encode_for_xml encode_byte decode entity are_digits str_eq show read_digits
control_byte = refl

one_letter : decode none (encode_for_xml (195 ∷ 132 ∷ [])) ≡ some (195 ∷ 132 ∷ [])
unfolding encode_for_xml encode_byte decode entity are_digits str_eq show read_digits
one_letter = refl

encode_for_xml-Quotable_example :
    All (λ c. is_quotable c ≡ true) (encode_for_xml (codes "\"><isr>"))
encode_for_xml-Quotable_example = encode_for_xml-Quotable (codes "\"><isr>")

-- The second interval.
abbrev minute : ℕ
minute = 1

eth_is_asked : (should_add_key minute (codes "eth0") [] []).0 ≡ true
unfolding should_add_key holds
eth_is_asked = refl
