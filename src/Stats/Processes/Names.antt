-- ===== src/Stats/Processes/Names.antt =====
-- The name of a process in src/stats/StatsProcesses.cpp: from its status file, and where that may be
-- cut off from its command line.
use istatserverlinux.Prelude.{
  ℕ, Bool, true, false, List, [], ◌∷◌, ◌++◌, Option, none, some, ◌==◌, if◌then◌else◌, length, take,
  drop,
}
use istatserverlinux.Text.{Bytes, codes, is_prefix, find}
use istatserverlinux.Text.Trim.{find_first_not_of}

-- getline until there is nothing left: an end with the separator opens no further piece.
unfoldable pub pieces : ℕ → Bytes → Bytes → List Bytes
pieces separator [] [] = []
pieces separator (b ∷ piece) [] = (b ∷ piece) ∷ []
pieces separator piece (c ∷ s) =
    let rest = pieces separator (if c == separator then [] else piece ++ c ∷ []) s in
    if c == separator then piece ∷ rest else rest

unfoldable pub components_from_string : Bytes → ℕ → List Bytes
unfolding pieces
components_from_string input separator = pieces separator [] input

abbrev from_start : Bytes → Option ℕ → Bytes
from_start line none = []
from_start line (some start) = drop start line

-- The search for the line "Name:"; find_first_not_of begins behind it.
name_line : List Bytes → Bytes
unfolding is_prefix find_first_not_of
name_line [] = []
name_line (line ∷ lines) =
    if is_prefix (codes "Name:") line
    then from_start (drop 5 line) (find_first_not_of (codes " \t") (drop 5 line))
    else name_line lines

unfoldable pub name_from_status : Bytes → Bytes
unfolding components_from_string name_line
name_from_status status = name_line (components_from_string status 10)

-- The zero bytes between the arguments become spaces.
abbrev spaced : Bytes → Bytes
spaced [] = []
spaced (c ∷ s) = (if c == 0 then 32 else c) ∷ spaced s

abbrev last_or : Bytes → List Bytes → Bytes
last_or component [] = component
last_or component (piece ∷ rest) = last_or piece rest

abbrev is_found : Option ℕ → Bool
is_found none = false
is_found (some i) = true

-- The first component with the name in it, less the directories in front.
named_component : Bytes → List Bytes → Bytes
unfolding find components_from_string
named_component name [] = name
named_component name (component ∷ components) =
    if is_found (find name component)
    then last_or component (components_from_string component 47)
    else named_component name components

-- A command line that cannot be opened, or is empty, leaves the name. The buffer takes 1023 bytes.
unfoldable pub name_from_cmd : Option Bytes → Bytes → Bytes
unfolding named_component components_from_string
name_from_cmd none name = name
name_from_cmd (some cmdline) name =
    if length cmdline == 0
    then name
    else named_component name (components_from_string (spaced (take 1023 cmdline)) 32)

-- A name of 15 bytes may be cut off; the field of the item holds 127.
unfoldable pub process_name : Bytes → Option Bytes → Bytes
unfolding name_from_status name_from_cmd
process_name status cmdline =
    let name = name_from_status status in
    take 127 (if length name == 15 then name_from_cmd cmdline name else name)
