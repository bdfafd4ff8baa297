-- ===== src/Responses/Escape.antt =====
-- `encodeForXml` of src/Responses.cpp.
pub mod Decode
use istatserverlinux.Prelude.{ℕ, ◌||◌, [], ◌∷◌, ◌++◌, ltb, ◌==◌, if◌then◌else◌}
use istatserverlinux.Text.{Bytes, codes}
use istatserverlinux.Text.Number.{show}

-- What one byte is written as.
unfoldable pub encode_byte : ℕ → Bytes
encode_byte c =
    if c == b'&'
    then codes "&amp;"
    else if c == b'<'
    then codes "&lt;"
    else if c == b'>'
    then codes "&gt;"
    else if c == b'"'
    then codes "&quot;"
    else if c == b'\''
    then codes "&apos;"
    else if ltb c 32 || ltb 127 c
    then codes "&#" ++ (show c ++ codes ";")
    else c ∷ []

unfoldable pub encode_for_xml : Bytes → Bytes
unfolding encode_byte
encode_for_xml [] = []
encode_for_xml (c ∷ s) = encode_byte c ++ encode_for_xml s
