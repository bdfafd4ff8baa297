-- ===== src/Conf/Settings.antt =====
-- Settings that come back from a file of src/Conf.cpp as they were written.
use istatserverlinux.Prelude.{
  ℕ, suc, true, false, List, [], ◌∷◌, ◌++◌, none, some, ◌≡◌, ◌≢◌, refl, sym, ap, ◌∙◌, arith, ◌==◌,
  if◌then◌else◌, length, take, take-full, drop-full, All, All-append, append-nil, append_assoc,
  length-append, map,
}
use istatserverlinux.Prelude.Outcome.{done}
use istatserverlinux.Text.{Bytes, codes, str_eq}
use istatserverlinux.Text.Explode.Pieces.{Lacks}
use istatserverlinux.Text.Trim.{
  one_of, find_first_of, find_first_not_of, find_last_not_of, trim, blanks, cut_behind,
}
use istatserverlinux.Text.Trim.Edges.{AreDelims}
use istatserverlinux.Clientset.{lines}
use istatserverlinux.Clientset.Lines.{lines-append}
use istatserverlinux.Conf.{
  Property, null_property, Config, remove_junk, is_array, parse_line, parse_lines, parse, get,
  get_in,
}

-- The text begins and ends with a byte that is no blank.
pub record HasEnds (s : Bytes) : Type 0 where
  pub first : ℕ
  pub behind : Bytes
  pub before : Bytes
  pub last : ℕ
  pub first_is : s ≡ first ∷ behind
  pub last_is : s ≡ before ++ last ∷ []
  pub first_bare : one_of blanks first ≡ false
  pub last_bare : one_of blanks last ≡ false

-- A name with no blank and no comment sign, and a value with bare ends that is no array.
pub record IsPlainSetting (setting : Bytes × Bytes) : Type 0 where
  pub name_ends : HasEnds setting.0
  pub name_blank : All (λ c. one_of (codes " \t") c ≡ false) setting.0
  pub name_comment : All (λ c. one_of (codes "#") c ≡ false) setting.0
  pub name_line : Lacks b'\n' setting.0
  pub value_ends : HasEnds setting.1
  pub value_comment : All (λ c. one_of (codes "#") c ≡ false) setting.1
  pub value_line : Lacks b'\n' setting.1
  pub value_plain : is_array setting.1 ≡ false

-- The file with one line `name value` for each setting.
abbrev pub settings_text : List (Bytes × Bytes) → Bytes
settings_text [] = []
settings_text ((name, value) ∷ rest) = (name ++ b' ' ∷ value) ++ b'\n' ∷ settings_text rest

-- The value of the first setting of the name.
abbrev pub first_value : List (Bytes × Bytes) → Bytes → Bytes → Bytes
first_value [] var default = default
first_value ((name, value) ∷ rest) var default =
    if str_eq name var then value else first_value rest var default

find_last_not_of-bare :
    (delim s : Bytes) (c : ℕ)
    → one_of delim c ≡ false
    → find_last_not_of delim (s ++ c ∷ []) ≡ some (length s)
unfolding find_last_not_of
find_last_not_of-bare delim [] c h = rw h refl
find_last_not_of-bare delim (d ∷ s) c h = rw (find_last_not_of-bare delim s c h) refl

find_first_not_of-bare :
    (delim front s : Bytes) (c : ℕ)
    → AreDelims delim front
    → one_of delim c ≡ false
    → find_first_not_of delim (front ++ c ∷ s) ≡ some (length front)
unfolding find_first_not_of
find_first_not_of-bare delim [] s c f h = rw h refl
find_first_not_of-bare delim (d ∷ front) s c f h =
    rw (f.0, find_first_not_of-bare delim front s c f.1 h) refl

take_all : (s : Bytes) (c : ℕ) → take (suc (length s)) (s ++ c ∷ []) ≡ s ++ c ∷ []
take_all [] c = refl
take_all (d ∷ s) c = ap (◌∷◌ d) (take_all s c)

-- Blanks in front of a text with bare ends are all that goes.
trim-HasEnds : (front s : Bytes) → AreDelims blanks front → HasEnds s → trim (front ++ s) blanks ≡ s
unfolding trim
trim-HasEnds front s f h =
    let whole : front ++ s ≡ (front ++ h.before) ++ h.last ∷ [] =
      ap (◌++◌ front) h.last_is ∙ sym (append_assoc front h.before (h.last ∷ [])) in
    let kept : cut_behind (front ++ s) (find_last_not_of blanks (front ++ s)) ≡ front ++ s =
      rw whole (
        rw (find_last_not_of-bare blanks (front ++ h.before) h.last h.last_bare)
          (take_all (front ++ h.before) h.last)) in
    let first : find_first_not_of blanks (front ++ s) ≡ some (length front) =
      rw h.first_is (find_first_not_of-bare blanks front h.behind h.first f h.first_bare) in
    rw (kept, first) (drop-full front s)

find_first_of-none :
    (set s : Bytes) → All (λ c. one_of set c ≡ false) s → find_first_of set s ≡ none
unfolding find_first_of
find_first_of-none set [] h = refl
find_first_of-none set (c ∷ s) h = rw (h.0, find_first_of-none set s h.1) refl

find_first_of-append :
    (set s t : Bytes) (c : ℕ)
    → All (λ c. one_of set c ≡ false) s
    → one_of set c ≡ true
    → find_first_of set (s ++ c ∷ t) ≡ some (length s)
unfolding find_first_of
find_first_of-append set [] t c h e = rw e refl
find_first_of-append set (d ∷ s) t c h e = rw (h.0, find_first_of-append set s t c h.1 e) refl

-- The text of one setting.
abbrev line_of : Bytes × Bytes → Bytes
line_of setting = setting.0 ++ b' ' ∷ setting.1

line_of-HasEnds : (setting : Bytes × Bytes) → IsPlainSetting setting → HasEnds (line_of setting)
line_of-HasEnds (name, value) p = record {
  first = p.name_ends.first;
  behind = p.name_ends.behind ++ b' ' ∷ value;
  before = name ++ b' ' ∷ p.value_ends.before;
  last = p.value_ends.last;
  first_is = ap (λ s. s ++ b' ' ∷ value) p.name_ends.first_is;
  last_is =
      ap (λ s. name ++ b' ' ∷ s) p.value_ends.last_is
      ∙ sym (append_assoc name (b' ' ∷ p.value_ends.before) (p.value_ends.last ∷ []));
  first_bare = p.name_ends.first_bare;
  last_bare = p.value_ends.last_bare;
}

remove_junk-line_of :
    (setting : Bytes × Bytes)
    → IsPlainSetting setting
    → remove_junk (line_of setting) ≡ line_of setting
unfolding remove_junk
remove_junk-line_of (name, value) p =
    rw
      (
        trim-HasEnds [] (line_of (name, value)) tt (line_of-HasEnds (name, value) p),
        find_first_of-none (codes "#") (line_of (name, value)) (
            All-append (λ c. one_of (codes "#") c ≡ false) name (b' ' ∷ value) p.name_comment
              (ground arith, p.value_comment)),
      )
      refl

-- The property that a setting is read as.
abbrev property_of : Bytes × Bytes → Property
property_of (name, value) = record { var = name; val = value; array = [] }

parse_line-line_of :
    (last : Property) (setting : Bytes × Bytes)
    → IsPlainSetting setting
    → last.array ≡ []
    → parse_line last (line_of setting) ≡ done (property_of setting)
unfolding parse_line
parse_line-line_of last (name, value) p none_yet =
    rw
      (
        find_first_of-append (codes " \t") name value b' ' p.name_blank (ground arith),
        drop-full name (b' ' ∷ value),
        take-full name (b' ' ∷ value),
        trim-HasEnds (b' ' ∷ []) value (ground arith, tt) p.value_ends,
        p.value_plain,
        none_yet,
      )
      refl

line_of-length : (setting : Bytes × Bytes) → (length (line_of setting) == 0) ≡ false
line_of-length (name, value) = ground (arith, length-append name (b' ' ∷ value))

parse_lines-settings :
    (settings : List (Bytes × Bytes)) (last : Property) (properties : List Property)
    → All IsPlainSetting settings
    → last.array ≡ []
    → parse_lines last properties (map line_of settings)
      ≡ done (properties ++ map property_of settings)
unfolding parse_lines
parse_lines-settings [] last properties h e = ap done (sym (append-nil properties))
parse_lines-settings (setting ∷ rest) last properties h e =
    rw
      (
        remove_junk-line_of setting h.0,
        line_of-length setting,
        parse_line-line_of last setting h.0 e,
      )
      (parse_lines-settings rest (property_of setting) (properties ++ property_of setting ∷ []) h.1
          refl
        ∙ ap done (append_assoc properties (property_of setting ∷ []) (map property_of rest)))

lines-settings_text :
    (settings : List (Bytes × Bytes))
    → All IsPlainSetting settings
    → lines [] (settings_text settings) ≡ map line_of settings
unfolding lines
lines-settings_text [] h = refl
lines-settings_text (setting ∷ rest) h =
    lines-append [] (line_of setting) (settings_text rest) (
      All-append (λ c. c ≢ b'\n') setting.0 (b' ' ∷ setting.1) h.0.name_line
        (ground arith, h.0.value_line))
    ∙ ap (◌∷◌ (line_of setting)) (lines-settings_text rest h.1)

get_in-property_of :
    (settings : List (Bytes × Bytes)) (var default : Bytes)
    → get_in (map property_of settings) var default ≡ first_value settings var default
unfolding get_in
get_in-property_of [] var default = refl
get_in-property_of (setting ∷ rest) var default = rw (get_in-property_of rest var default) refl

-- A file of lines `name value` is read to its end, and each name then has the value of its first
-- line, and any other name the default; where names have no blank, no newline and no comment sign,
-- and values have no newline, no comment sign, no blank at their ends and are no array.
pub get-settings_text :
    (settings : List (Bytes × Bytes))
    → All IsPlainSetting settings
    → (d : Config) × (parse (record { properties = [] }) (some (settings_text settings)) ≡ done d)
      × ((var default : Bytes) → get d var default ≡ first_value settings var default)
unfolding parse get
get-settings_text settings h = (
  record { properties = map property_of settings },
  rw (lines-settings_text settings h, parse_lines-settings settings null_property [] h refl) refl,
  get_in-property_of settings,
)
