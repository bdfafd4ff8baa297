-- ===== src/Argument.antt =====
-- src/Argument.cpp: the command line.
pub mod Words
use istatserverlinux.Prelude.{
  ℕ, zero, suc, ◌-◌, ◌+◌, Bool, true, false, not, List, [], ◌∷◌, ◌++◌, Option, none, some,
  if◌then◌else◌, take, drop,
}
use istatserverlinux.Text.{Bytes, codes, str_eq}
use istatserverlinux.Text.Trim.{find_first_of}

pub record Argument : Type 0 where
  pub value : Bytes
  pub argument : Bytes

pub record ArgumentSet : Type 0 where
  pub args : List Argument

-- substr(0, 1) == "-"
abbrev pub is_dashed : Bytes → Bool
is_dashed word = str_eq (take 1 word) (codes "-")

-- A long option without a sign has the value 1.
abbrev pub at_sign : Bytes → Option ℕ → Argument
at_sign argument none = record { value = codes "1"; argument = drop 2 argument }
at_sign argument (some sign) = record {
  value = drop (sign + 1) argument;
  argument = take (sign - 2) (drop 2 argument);
}

-- The word behind, or 1 where there is none.
abbrev word_behind : List Bytes → Bytes
word_behind [] = codes "1"
word_behind (word ∷ rest) = word

abbrev pub value_behind : List Bytes → Bytes
value_behind rest = let value = word_behind rest in if is_dashed value then codes "1" else value

unfoldable pub option : Bytes → List Bytes → Argument
unfolding str_eq find_first_of
option argument rest =
    if is_dashed (drop 1 argument)
    then at_sign argument (find_first_of (codes "=") argument)
    else record { value = value_behind rest; argument = drop 1 argument }

-- The words behind the name of the program.
unfoldable pub arguments : List Bytes → List Argument
unfolding option
arguments [] = []
arguments (word ∷ rest) =
    let others = arguments rest in if is_dashed word then option word rest ∷ others else others

-- argv[0] is the name of the program.
unfoldable pub argument_set : List Bytes → ArgumentSet
argument_set argv = record { args = arguments (drop 1 argv) }

unfoldable is_set_in : List Argument → Bytes → Bool
unfolding str_eq
is_set_in [] arg = false
is_set_in (a ∷ args) arg =
    if str_eq a.argument arg
    then (if not (str_eq a.value []) then true else is_set_in args arg)
    else is_set_in args arg

unfoldable pub is_set : ArgumentSet → Bytes → Bool
unfolding is_set_in
is_set s arg = is_set_in s.args arg

unfoldable pub get_in : List Argument → Bytes → Bytes → Bytes
unfolding str_eq
get_in [] arg val = val
get_in (a ∷ args) arg val = if str_eq a.argument arg then a.value else get_in args arg val

unfoldable pub get : ArgumentSet → Bytes → Bytes → Bytes
get s arg val = get_in s.args arg val
