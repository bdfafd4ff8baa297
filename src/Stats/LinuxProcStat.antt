-- ===== src/Stats/LinuxProcStat.antt =====
-- src/stats/LinuxProcStat.h: what the process collector reads of a line of /proc/PID/stat.
pub mod Fields
pub mod Line
pub mod Parts
pub mod Whole
use istatserverlinux.Prelude.{
  ℕ, zero, suc, ◌+◌, ◌-◌, ◌*◌, ◌/◌, ◌%◌, ◌^◌, Bool, true, false, not, ◌&&◌, ◌||◌, List, [], ◌∷◌,
  ◌++◌, Option, none, some, ltb, leb, ◌==◌, if◌then◌else◌, length, take, drop, get_or, ◌≡◌, refl,
}
use istatserverlinux.Text.{Bytes, rfind_char}
use istatserverlinux.Text.Number.{is_digit, is_space, skip_space}
use istatserverlinux.Text.Explode.{find_char}

pub record LinuxProcStat : Type 0 where
  pub user_ticks : ℕ
  pub system_ticks : ℕ
  pub resident_pages : ℕ
  pub threads : ℕ

-- numeric_limits<unsigned long long>::max() and numeric_limits<long>::max()
abbrev pub ull_max : ℕ
ull_max = 2 ^ 64 - 1

abbrev pub long_limit : ℕ
long_limit = 2 ^ 63 - 1

-- The loop over the digits; the product and the sum are in 64 bits.
unfoldable pub parse_digits : ℕ → Bytes → Option ℕ
parse_digits parsed [] = some parsed
parse_digits parsed (c ∷ text) =
    let digit = c - b'0' in
    let rest = parse_digits ((parsed * 10 + digit) % 2 ^ 64) text in
    if not (is_digit c) then none else if ltb ((ull_max - digit) / 10) parsed then none else rest

unfoldable pub parse_unsigned_proc_field : Bytes → Option ℕ
unfolding parse_digits
parse_unsigned_proc_field text = if length text == 0 then none else parse_digits 0 text

-- fields >> token: a word between blanks, and what is behind it.
unfoldable pub word_length : Bytes → ℕ
word_length [] = 0
word_length (c ∷ s) = if is_space c then 0 else suc (word_length s)

unfoldable pub next_token : Bytes → Option (Bytes × Bytes)
unfolding word_length skip_space
next_token s =
    let t = skip_space s in
    if length t == 0 then none else some (take (word_length t) t, drop (word_length t) t)

-- Go on where there is a value, and else return false.
abbrev pub with_some : {A : Type 0} → Option A → (A → Option LinuxProcStat) → Option LinuxProcStat
with_some none f = none
with_some (some a) f = f a

-- The tests on one field, by its number.
unfoldable pub set_field : ℕ → Bytes → LinuxProcStat → Option LinuxProcStat
unfolding parse_unsigned_proc_field
set_field field token parsed =
    if field == 3
    then (if length token == 1 then some parsed else none)
    else if field == 14
    then with_some (parse_unsigned_proc_field token) (λ n. some (record parsed { user_ticks = n }))
    else if field == 15
    then with_some (parse_unsigned_proc_field token)
        (λ n. some (record parsed { system_ticks = n }))
    else if field == 20
    then with_some (parse_unsigned_proc_field token)
        (λ n. if ltb long_limit n then none else some (record parsed { threads = n }))
    else if field == 24
    then with_some (parse_unsigned_proc_field token)
        (λ n. some (record parsed { resident_pages = n }))
    else some parsed

-- for (field = 3; field <= 24; ++field), `count` of them still to come.
unfoldable pub read_fields : ℕ → ℕ → Bytes → LinuxProcStat → Option LinuxProcStat
unfolding next_token set_field
read_fields zero field text parsed = some parsed
read_fields (suc count) field text parsed =
    with_some (next_token text)
      (λ token. with_some (set_field field token.0 parsed) (read_fields count (suc field) token.1))

abbrev pub no_stat : LinuxProcStat
no_stat = record { user_ticks = 0; system_ticks = 0; resident_pages = 0; threads = 0 }

-- The fields behind the name, where the name's brackets and the process id are right.
abbrev pub fields_of : Bytes → ℕ → Option ℕ → Option LinuxProcStat
fields_of text close none = none
fields_of text close (some pid) =
    if pid == 0 then none else read_fields 22 3 (drop (close + 2) text) no_stat

abbrev pub between : Bytes → Option ℕ → Option ℕ → Option LinuxProcStat
between text none close = none
between text (some start) none = none
between text (some start) (some close) =
    if leb close start
      || ltb start 2
      || not (get_or text (start - 1) 0 == b' ')
      || leb (length text) (close + 2)
      || not (get_or text (close + 1) 0 == b' ')
    then none
    else fields_of text close (parse_unsigned_proc_field (take (start - 1) text))

unfoldable pub parse_linux_proc_stat : Bytes → Option LinuxProcStat
unfolding read_fields parse_unsigned_proc_field find_char rfind_char
parse_linux_proc_stat text = between text (find_char b'(' text) (rfind_char b')' text)

-- The product is in 64 bits.
unfoldable pub resident_bytes : LinuxProcStat → ℕ → Option ℕ
resident_bytes stat page_size =
    if page_size == 0 || ltb (ull_max / page_size) stat.resident_pages
    then none
    else some ((stat.resident_pages * page_size) % 2 ^ 64)
