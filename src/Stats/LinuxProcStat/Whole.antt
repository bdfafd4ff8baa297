-- ===== src/Stats/LinuxProcStat/Whole.antt =====
-- A whole line of /proc/PID/stat as src/stats/LinuxProcStat.h reads it.
use istatserverlinux.Prelude.{
  ℕ, ◌+◌, ◌-◌, ◌≤◌, ◌<◌, true, false, List, [], ◌∷◌, ◌++◌, Option, none, some, ◌≡◌, ◌≢◌, refl, sym,
  ap, ◌∙◌, arith, ◌==◌, if◌then◌else◌, length, ltb-false, leb-false, take, drop, get_or, All,
  All-append, take-full, drop-full, length-append, append_assoc,
}
use istatserverlinux.Text.{Bytes, rfind_char}
use istatserverlinux.Text.Number.{is_digit, show, show-Digits, length-show}
use istatserverlinux.Text.Explode.{find_char}
use istatserverlinux.Text.Explode.Pieces.{Lacks}
use istatserverlinux.Stats.LinuxProcStat.{
  no_stat, parse_unsigned_proc_field, read_fields, parse_linux_proc_stat, with_some, fields_of,
  between,
}
use istatserverlinux.Stats.LinuxProcStat.Line.{
  IsWord, words_text, read_fields-words_text, parse_unsigned_proc_field-show,
}
use istatserverlinux.Stats.LinuxProcStat.Parts.{
  ProcLine, line_words, line_text, IsProcLine, stat_of_line, read_words-line_words,
  length-line_words,
}

find_char-append : (x : ℕ) (s t : Bytes) → Lacks x s → find_char x (s ++ x ∷ t) ≡ some (length s)
unfolding find_char
find_char-append x [] t h = ground arith
find_char-append x (c ∷ s) t h = ground (arith, find_char-append x s t h.1)

rfind_char-Lacks : (x : ℕ) (t : Bytes) → Lacks x t → rfind_char x t ≡ none
unfolding rfind_char
rfind_char-Lacks x [] h = refl
rfind_char-Lacks x (c ∷ t) h = ground (arith, rfind_char-Lacks x t h.1)

rfind_char-append : (x : ℕ) (s t : Bytes) → Lacks x t → rfind_char x (s ++ x ∷ t) ≡ some (length s)
unfolding rfind_char
rfind_char-append x [] t h = ground (arith, rfind_char-Lacks x t h)
rfind_char-append x (c ∷ s) t h = rw (rfind_char, rfind_char-append x s t h) refl

get_or-append : (s t : Bytes) (c d : ℕ) → get_or (s ++ c ∷ t) (length s) d ≡ c
get_or-append [] t c d = refl
get_or-append (x ∷ s) t c d = get_or-append s t c d

words_text-Lacks : (words : List Bytes) → All IsWord words → Lacks b')' (words_text words)
words_text-Lacks [] h = tt
words_text-Lacks (w ∷ words) h =
    All-append (λ c. c ≢ b')') w (b' ' ∷ words_text words) h.0.2
      (omega arith, words_text-Lacks words h.1)

-- Where the brackets stand right, the fields behind them are read.
between_lem :
    (text digits tail : Bytes) (start close : ℕ)
    → start < close
    → 2 ≤ start
    → close + 2 < length text
    → get_or text (start - 1) 0 ≡ b' '
    → get_or text (close + 1) 0 ≡ b' '
    → take (start - 1) text ≡ digits
    → drop (close + 2) text ≡ tail
    → between text (some start) (some close)
      ≡ with_some
          (parse_unsigned_proc_field digits)
          (λ pid. if pid == 0 then none else read_fields 22 3 tail no_stat)
between_lem text digits tail start close a b c d e f g =
    rw
      (f, d, e, leb-false close start a, ltb-false start 2 b, leb-false (length text) (close + 2) c)
      (by_pid (parse_unsigned_proc_field digits))
  where
    by_pid :
        (pid : Option ℕ)
        → fields_of text close pid
          ≡ with_some pid (λ pid. if pid == 0 then none else read_fields 22 3 tail no_stat)
    by_pid none = refl
    by_pid (some pid) = rw g refl

between-brackets :
    (digits comm tail : Bytes)
    → 0 < length digits
    → 0 < length tail
    → between
        ((digits ++ b' ' ∷ []) ++ b'(' ∷ (comm ++ b')' ∷ b' ' ∷ tail))
        (some (length (digits ++ b' ' ∷ [])))
        (some (length ((digits ++ b' ' ∷ []) ++ b'(' ∷ comm)))
      ≡ with_some
          (parse_unsigned_proc_field digits)
          (λ pid. if pid == 0 then none else read_fields 22 3 tail no_stat)
between-brackets digits comm tail d t =
    between_lem text digits tail (length front) (length name)
      (omega (arith, length-append front (b'(' ∷ comm)))
      (omega (arith, d, length-append digits (b' ' ∷ [])))
      (omega (arith, t, ap length at_close, length-append name (b')' ∷ b' ' ∷ tail)))
      (rw (one_less, at_start) (get_or-append digits (b'(' ∷ (comm ++ b')' ∷ b' ' ∷ tail)) b' ' 0))
      (rw (one_more, behind_close) (get_or-append (name ++ b')' ∷ []) tail b' ' 0))
      (rw (one_less, at_start) (take-full digits (b' ' ∷ b'(' ∷ (comm ++ b')' ∷ b' ' ∷ tail))))
      (rw (two_more, at_tail) (drop-full (name ++ b')' ∷ b' ' ∷ []) tail))
  where
    front : Bytes
    front = digits ++ b' ' ∷ []

    name : Bytes
    name = front ++ b'(' ∷ comm

    text : Bytes
    text = front ++ b'(' ∷ (comm ++ b')' ∷ b' ' ∷ tail)

    at_start : text ≡ digits ++ b' ' ∷ b'(' ∷ (comm ++ b')' ∷ b' ' ∷ tail)
    at_start = append_assoc digits (b' ' ∷ []) (b'(' ∷ (comm ++ b')' ∷ b' ' ∷ tail))

    at_close : text ≡ name ++ b')' ∷ b' ' ∷ tail
    at_close = sym (append_assoc front (b'(' ∷ comm) (b')' ∷ b' ' ∷ tail))

    behind_close : text ≡ (name ++ b')' ∷ []) ++ b' ' ∷ tail
    behind_close = at_close ∙ sym (append_assoc name (b')' ∷ []) (b' ' ∷ tail))

    at_tail : text ≡ (name ++ b')' ∷ b' ' ∷ []) ++ tail
    at_tail = at_close ∙ sym (append_assoc name (b')' ∷ b' ' ∷ []) tail)

    one_less : length front - 1 ≡ length digits
    one_less = omega (arith, length-append digits (b' ' ∷ []))

    one_more : length name + 1 ≡ length (name ++ b')' ∷ [])
    one_more = omega (arith, length-append name (b')' ∷ []))

    two_more : length name + 2 ≡ length (name ++ b')' ∷ b' ' ∷ [])
    two_more = omega (arith, length-append name (b')' ∷ b' ' ∷ []))

digits_Lack : (s : Bytes) → All (λ c. is_digit c ≡ true) s → Lacks b'(' s
digits_Lack [] h = tt
digits_Lack (c ∷ s) h = (ground (arith, h.0), digits_Lack s h.1)

-- A line of /proc/PID/stat with 22 words behind the name, no closing bracket in them, and numbers
-- that fit gives its ticks, its threads and its pages, whatever bytes the name has, brackets and
-- blanks included.
pub parse_linux_proc_stat-line_text :
    (l : ProcLine) → IsProcLine l → parse_linux_proc_stat (line_text l) ≡ some (stat_of_line l)
unfolding parse_linux_proc_stat
parse_linux_proc_stat-line_text l h =
    rw (starts, closes)
      (between-brackets (show l.pid) l.comm tail (length-show l.pid) tail_positive
        ∙ rw (parse_unsigned_proc_field-show l.pid h.pid_fits, not_zero) reads)
  where
    tail : Bytes
    tail = words_text (line_words l) ++ l.rest

    tail_positive : 0 < length tail
    tail_positive = omega arith

    not_zero : (l.pid == 0) ≡ false
    not_zero = ground (arith, h.pid_positive)

    starts : find_char b'(' (line_text l) ≡ some (length (show l.pid ++ b' ' ∷ []))
    starts = find_char-append b'(' (show l.pid ++ b' ' ∷ []) (l.comm ++ b')' ∷ b' ' ∷ tail) (
        All-append (λ c. c ≢ b'(') (show l.pid) (b' ' ∷ [])
          (digits_Lack (show l.pid) (show-Digits l.pid)) (omega arith))

    closes :
        rfind_char b')' (line_text l) ≡ some (length ((show l.pid ++ b' ' ∷ []) ++ b'(' ∷ l.comm))
    closes =
        ap (rfind_char b')')
          (sym (append_assoc (show l.pid ++ b' ' ∷ []) (b'(' ∷ l.comm) (b')' ∷ b' ' ∷ tail)))
        ∙ rfind_char-append b')' ((show l.pid ++ b' ' ∷ []) ++ b'(' ∷ l.comm) (b' ' ∷ tail) (
          omega arith,
          All-append (λ c. c ≢ b')') (words_text (line_words l)) l.rest
              (words_text-Lacks (line_words l) h.words) h.no_bracket,
        )

    reads : read_fields 22 3 tail no_stat ≡ some (stat_of_line l)
    reads =
        ap (λ n. read_fields n 3 tail no_stat) (sym (length-line_words l h))
        ∙ read_fields-words_text (line_words l) 3 l.rest no_stat h.words
        ∙ read_words-line_words l h
