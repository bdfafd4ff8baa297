-- ===== src/Stats/SmartMetadata.antt =====
-- src/stats/SmartMetadata.h: what the SMART helper's status file says of each volume.
pub mod Volumes
use istatserverlinux.Prelude.{
  ℕ, ◌+◌, ◌-◌, ◌*◌, Bool, true, false, not, ◌&&◌, ◌||◌, List, [], ◌∷◌, Option, none, some, ltb, leb,
  ◌==◌, if◌then◌else◌, length,
}
use istatserverlinux.Prelude.Int.{pos_part}
use istatserverlinux.Text.{Bytes, codes, str_eq}
use istatserverlinux.Text.Number.{strtol, is_digit, skip_space}
use istatserverlinux.Xml.{Node, Nodes, nil, cons, get_prop, has_name, children}

-- `checked` is in seconds, 0 for unknown.
pub record DiskHealth : Type 0 where
  pub devices : Bytes
  pub state : Bytes
  pub detail : Bytes
  pub checked : ℕ

abbrev pub no_health : DiskHealth
no_health = record { devices = []; state = []; detail = []; checked = 0 }

abbrev short_text : Option Bytes → Bytes
short_text none = []
short_text (some t) = if leb (length t) 4096 then t else []

unfoldable pub attribute : Node → Bytes → Bytes
attribute node name = short_text (get_prop node name)

-- Whether strtol stops at the end of the text: no conversion leaves `end` at the start.
all_digits : Bytes → Bool
all_digits [] = true
all_digits (c ∷ s) = is_digit c && all_digits s

converts : Bytes → Bool
unfolding all_digits
converts [] = false
converts (c ∷ s) = all_digits (c ∷ s)

ends_clean : Bytes → Bool
unfolding converts
ends_clean [] = true
ends_clean (c ∷ s) = if c == b'-' || c == b'+' then converts s else converts (c ∷ s)

-- strtol(checked, &end, 10), and 0 where text is left over or the number is not positive.
checked_of : Bytes → ℕ
unfolding ends_clean skip_space
checked_of t = if length t == 0 || ends_clean (skip_space t) then pos_part (strtol t) else 0

-- volumes[bsd] = health
unfoldable pub put_volume :
    Bytes → DiskHealth → List (Bytes × DiskHealth) → List (Bytes × DiskHealth)
put_volume bsd health [] = (bsd, health) ∷ []
put_volume bsd health ((k, h) ∷ volumes) =
    if str_eq k bsd then (bsd, health) ∷ volumes else (k, h) ∷ put_volume bsd health volumes

pub volume_health : Node → DiskHealth
unfolding checked_of attribute
volume_health node = record {
  devices = attribute node (codes "devices");
  state = attribute node (codes "state");
  detail = attribute node (codes "detail");
  checked = checked_of (attribute node (codes "checked"));
}

-- The loop over the root's children.
unfoldable pub read_volumes : List (Bytes × DiskHealth) → Nodes → List (Bytes × DiskHealth)
unfolding volume_health put_volume
read_volumes volumes nil = volumes
read_volumes volumes (cons node rest) =
    read_volumes
      (if has_name node (codes "volume")
        then put_volume (attribute node (codes "bsd")) (volume_health node) volumes
        else volumes)
      rest

pub record SmartMetadata : Type 0 where
  pub last_read : ℕ
  pub volumes : List (Bytes × DiskHealth)

-- What stat and xmlReadFile find at the path: the size of a regular file, the root of its document,
-- and whether the document has a DTD.
pub record StatusFile : Type 0 where
  pub size : ℕ
  pub root : Option Node
  pub has_dtd : Bool

document_volumes : Option Node → Bool → List (Bytes × DiskHealth)
unfolding read_volumes
document_volumes none dtd = []
document_volumes (some root) dtd =
    if not dtd
      && has_name root (codes "health")
      && str_eq (attribute root (codes "version")) (codes "1")
    then read_volumes [] (children root)
    else []

file_volumes : Option StatusFile → List (Bytes × DiskHealth)
unfolding document_volumes
file_volumes none = []
file_volumes (some f) = if ltb (1024 * 1024) f.size then [] else document_volumes f.root f.has_dtd

unfoldable pub refresh : SmartMetadata → ℕ → Option StatusFile → SmartMetadata
unfolding file_volumes
refresh m now file =
    if leb m.last_read now && ltb (now - m.last_read) 30
    then m
    else record { last_read = now; volumes = file_volumes file }

abbrev pub stale_if : Bool → DiskHealth → DiskHealth
stale_if true h = record h { state = codes "stale" }
stale_if false h = h

-- result.checked <= 0 || result.checked > now + 60 || now - result.checked > 900, on signed times.
abbrev pub is_stale : ℕ → DiskHealth → Bool
is_stale now h = h.checked == 0 || ltb (now + 60) h.checked || ltb (h.checked + 900) now

unfoldable pub find_volume : Bytes → List (Bytes × DiskHealth) → Option DiskHealth
find_volume bsd [] = none
find_volume bsd ((k, h) ∷ volumes) = if str_eq k bsd then some h else find_volume bsd volumes

abbrev aged : ℕ → Option DiskHealth → DiskHealth
aged now none = no_health
aged now (some h) = stale_if (is_stale now h) h

unfoldable pub lookup : List (Bytes × DiskHealth) → ℕ → Bytes → DiskHealth
unfolding find_volume
lookup volumes now bsd = aged now (find_volume bsd volumes)
