-- ===== src/Conf.antt =====
-- src/Conf.cpp: the configuration file and its properties.
pub mod Lines
pub mod Settings
use istatserverlinux.Prelude.{
  ℕ, zero, suc, ◌+◌, ◌-◌, Bool, true, false, not, ◌&&◌, List, [], ◌∷◌, ◌++◌, Option, none, some,
  ◌==◌, ltb, if◌then◌else◌, length, get_elem?, get_or, take, drop, ◌≡◌, refl,
}
use istatserverlinux.Prelude.Outcome.{Outcome, done, crash, ◌>>=◌}
use istatserverlinux.Text.{Bytes, codes, str_eq}
use istatserverlinux.Text.Explode.{explode}
use istatserverlinux.Text.Trim.{trim, blanks, find_first_of}
use istatserverlinux.Clientset.{lines}

pub record Property : Type 0 where
  pub var : Bytes
  pub val : Bytes
  pub array : List Bytes

abbrev pub null_property : Property
null_property = record { var = []; val = []; array = [] }

unfoldable pub get_array_size : Property → ℕ
get_array_size p = length p.array

unfoldable pub get_array_elem : Property → ℕ → Bytes
get_array_elem p index = if ltb index (length p.array) then get_or p.array index [] else []

pub record Config : Type 0 where
  pub properties : List Property

-- substr(0, pos)
abbrev pub up_to : Bytes → Option ℕ → Bytes
up_to s none = s
up_to s (some pos) = take pos s

-- Blanks at both ends go first, and then all from the comment sign on.
unfoldable pub remove_junk : Bytes → Bytes
unfolding trim find_first_of
remove_junk line = let l = trim line blanks in up_to l (find_first_of (codes "#") l)

-- substr(pos): npos lies behind the end, and throws std::out_of_range.
abbrev pub substr_from : Bytes → Option ℕ → Outcome Bytes
substr_from s none = crash
substr_from s (some pos) = done (drop pos s)

-- val[0] == '(' && val[val.length() - 1] == ')'; val[0] of the empty string is 0.
abbrev pub is_array : Bytes → Bool
is_array val = get_or val 0 0 == b'(' && get_or val (length val - 1) 0 == b')'

-- The bytes between the brackets: substr(1, length - 2).
abbrev pub inner : Bytes → Bytes
inner val = take (length val - 2) (drop 1 val)

-- The loop variable `property` outlives a round, so its array is that of the last array line.
abbrev pub set_property : Property → Bytes → Bytes → Property
set_property last var val =
    if is_array val
    then record { var = var; val = []; array = explode (trim (inner val) blanks) (codes " \t") }
    else record { var = var; val = val; array = last.array }

-- One line that is not empty, behind the property of the line before.
unfoldable pub parse_line : Property → Bytes → Outcome Property
unfolding find_first_of trim
parse_line last line =
    let pos = find_first_of (codes " \t") line in
    (do val ← substr_from line pos; done (set_property last (up_to line pos) (trim val blanks)))

unfoldable pub parse_lines : Property → List Property → List Bytes → Outcome (List Property)
unfolding remove_junk
parse_lines last properties [] = done properties
parse_lines last properties (text ∷ rest) =
    let line = remove_junk text in
    let skip = parse_lines last properties rest in
    let take = (do
      property ← parse_line last line
      parse_lines property (properties ++ property ∷ []) rest) in
    if length line == 0 then skip else take

-- A file that cannot be read ends the program with exit(1).
unfoldable pub parse : Config → Option Bytes → Outcome Config
unfolding parse_lines lines
parse c none = crash
parse c (some content) = do
  properties ← parse_lines null_property c.properties (lines [] content)
  done (record { properties = properties })

is_set_in : List Property → Bytes → Bool
is_set_in [] var = false
is_set_in (p ∷ ps) var =
    if str_eq p.var var && not (length p.val == 0) then true else is_set_in ps var

unfoldable pub is_set : Config → Bytes → Bool
unfolding is_set_in
is_set c var = is_set_in c.properties var

unfoldable pub get_in : List Property → Bytes → Bytes → Bytes
get_in [] var default = default
get_in (p ∷ ps) var default = if str_eq p.var var then p.val else get_in ps var default

unfoldable pub get : Config → Bytes → Bytes → Bytes
unfolding get_in
get c var default = get_in c.properties var default

get_array_in : List Property → Bytes → List Bytes
get_array_in [] var = []
get_array_in (p ∷ ps) var =
    if str_eq p.var var then p.val ∷ get_array_in ps var else get_array_in ps var

unfoldable pub get_array : Config → Bytes → List Bytes
unfolding get_array_in
get_array c var = get_array_in c.properties var

get_property_in : List Property → Bytes → Property
get_property_in [] var = null_property
get_property_in (p ∷ ps) var = if str_eq p.var var then p else get_property_in ps var

unfoldable pub get_property : Config → Bytes → Property
unfolding get_property_in
get_property c var = get_property_in c.properties var

parse_run :
    parse (record { properties = [] }) (some (codes "# c\n port\t5109 # x\nlist (a \"b\")\n"))
    ≡ done (record {
      properties =
          record { var = codes "port"; val = codes "5109"; array = [] }
          ∷ record { var = codes "list"; val = []; array = codes "a" ∷ codes "\"b\"" ∷ [] }
          ∷ [];
    })
unfolding parse parse_line explode
parse_run = refl
