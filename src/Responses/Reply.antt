-- ===== src/Responses/Reply.antt =====
-- The short replies of src/Responses.cpp. On Linux `serverModel` and `serverOSVersion` are empty
-- and `serverPlatform` is 2.
use istatserverlinux.Prelude.{ℕ, Bool, [], ◌∷◌, ◌++◌, if◌then◌else◌, length, ltb}
use istatserverlinux.Text.{Bytes, codes}
use istatserverlinux.Text.Number.{show}
use istatserverlinux.Responses.Escape.{encode_for_xml}
use istatserverlinux.Responses.Samples.{cat}

abbrev pub server_build : ℕ
server_build = 106

abbrev pub server_version : Bytes
server_version = codes "3.04"

abbrev pub protocol_version : ℕ
protocol_version = 3

abbrev pub server_platform : ℕ
server_platform = 2

abbrev pub server_model : Bytes
server_model = []

abbrev pub server_os_version : Bytes
server_os_version = []

abbrev pub isr_create_header : Bytes
isr_create_header = codes "<?xml version=\"1.0\" encoding=\"UTF-8\"?>"

abbrev pub isr_accept_code : Bytes
isr_accept_code = isr_create_header ++ codes "<isr type=\"103\"></isr>"

abbrev pub isr_reject_code : Bytes
isr_reject_code = isr_create_header ++ codes "<isr type=\"102\"></isr>"

unfoldable pub isr_accept_connection : Bytes
unfolding cat
isr_accept_connection = cat (
    isr_create_header
    ∷ codes "<isr type=\"100\" protocol=\""
    ∷ show protocol_version
    ∷ codes "\" sec=\"1\"></isr>"
    ∷ [])

optional_attribute : Bytes → Bytes → Bytes
optional_attribute name value =
    if ltb 0 (length value) then cat (name ∷ encode_for_xml value ∷ codes "\"" ∷ []) else []

unfoldable pub isr_serverinfo : ℕ → ℕ → Bytes → Bool → Bytes
unfolding cat optional_attribute
isr_serverinfo session auth uuid history_enabled = cat (
    isr_create_header
    ∷ codes "<isr type=\"101\" build=\""
    ∷ show server_build
    ∷ codes "\" version=\""
    ∷ server_version
    ∷ codes "\" history=\""
    ∷ show (if history_enabled then 1 else 0)
    ∷ codes "\" protocol=\""
    ∷ show protocol_version
    ∷ codes "\""
    ∷ optional_attribute (codes " model=\"") server_model
    ∷ codes " platform=\""
    ∷ show server_platform
    ∷ codes "\" session=\""
    ∷ show session
    ∷ codes "\" uuid=\""
    ∷ uuid
    ∷ codes "\""
    ∷ codes " software=\"istatserverlinux\""
    ∷ optional_attribute (codes " os=\"") server_os_version
    ∷ codes " auth=\""
    ∷ show auth
    ∷ codes "\"></isr>"
    ∷ [])

unfoldable pub isr_uptime_data : ℕ → Bytes
unfolding cat
isr_uptime_data uptime =
    cat (codes "<stat type=\"uptime\" u=\"" ∷ show uptime ∷ codes "\"></stat>" ∷ [])
