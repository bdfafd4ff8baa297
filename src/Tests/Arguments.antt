-- ===== src/Tests/Arguments.antt =====
-- The command line at concrete inputs.
use istatserverlinux.Prelude.{true, false, [], ◌∷◌, List, ◌≡◌, refl}
use istatserverlinux.Text.{Bytes, codes, str_eq}
use istatserverlinux.Text.Trim.{one_of, find_first_of}
use istatserverlinux.Argument.{argument_set, arguments, is_set, get}
use istatserverlinux.Argument.Words.{
  Setting, long, long_flag, short, short_flag, other, words, AreClear, meaning, value_of,
  argument_set-words,
}

-- istatserver --port=5109 -u istat file -d --daemon
abbrev settings : List Setting
settings =
    long (codes "port") (codes "5109")
    ∷ short (codes "u") (codes "istat")
    ∷ other (codes "file")
    ∷ short_flag (codes "d")
    ∷ long_flag (codes "daemon")
    ∷ []

settings-AreClear : AreClear settings
unfolding str_eq find_first_of one_of
settings-AreClear = (refl, (refl, refl, (refl, (refl, tt, (refl, tt)))))

is_set_test : is_set (argument_set (codes "istatserver" ∷ words settings)) (codes "d") ≡ true
unfolding argument_set is_set arguments
is_set_test = refl

is_set_other : is_set (argument_set (codes "istatserver" ∷ words settings)) (codes "file") ≡ false
unfolding argument_set is_set arguments
is_set_other = refl

argument_set-words_example :
    ((argument_set (codes "istatserver" ∷ words settings)).args ≡ meaning settings)
    × ((arg val : Bytes)
        → get (argument_set (codes "istatserver" ∷ words settings)) arg val
          ≡ value_of settings arg val)
argument_set-words_example = argument_set-words (codes "istatserver") settings settings-AreClear
