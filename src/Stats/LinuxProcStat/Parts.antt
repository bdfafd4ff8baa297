-- ===== src/Stats/LinuxProcStat/Parts.antt =====
-- A line of /proc/PID/stat in its parts, and the fields that src/stats/LinuxProcStat.h reads of it.
use istatserverlinux.Prelude.{
  ℕ, ◌^◌, ◌<◌, List, [], ◌∷◌, ◌++◌, some, ◌≡◌, refl, ◌∙◌, arith, length, ltb-false, All,
  length-append,
}
use istatserverlinux.Text.{Bytes}
use istatserverlinux.Text.Number.{show}
use istatserverlinux.Text.Explode.Pieces.{Lacks}
use istatserverlinux.Stats.LinuxProcStat.{LinuxProcStat, no_stat, long_limit, set_field}
use istatserverlinux.Stats.LinuxProcStat.Line.{
  IsWord, words_text, read_words, read_words-plain, parse_unsigned_proc_field-show,
}

-- A line as the kernel writes it: fields 4 to 13, 16 to 19 and 21 to 23 are any words, and the name
-- is any text at all.
pub record ProcLine : Type 0 where
  pub pid : ℕ
  pub comm : Bytes
  pub state : ℕ
  pub first : List Bytes
  pub user : ℕ
  pub system : ℕ
  pub middle : List Bytes
  pub threads : ℕ
  pub last : List Bytes
  pub resident : ℕ
  pub rest : Bytes

abbrev pub line_words : ProcLine → List Bytes
line_words l =
    (l.state ∷ [])
    ∷ (l.first
        ++ show l.user
          ∷ show l.system
          ∷ (l.middle ++ show l.threads ∷ (l.last ++ show l.resident ∷ [])))

abbrev pub line_text : ProcLine → Bytes
line_text l =
    (show l.pid ++ b' ' ∷ [])
    ++ b'(' ∷ (l.comm ++ b')' ∷ b' ' ∷ (words_text (line_words l) ++ l.rest))

pub record IsProcLine (l : ProcLine) : Type 0 where
  pub pid_positive : 0 < l.pid
  pub pid_fits : l.pid < 2 ^ 64
  pub words : All IsWord (line_words l)
  pub first_length : length l.first ≡ 10
  pub middle_length : length l.middle ≡ 4
  pub last_length : length l.last ≡ 3
  pub user_fits : l.user < 2 ^ 64
  pub system_fits : l.system < 2 ^ 64
  pub threads_fit : l.threads < 2 ^ 63
  pub resident_fits : l.resident < 2 ^ 64
  pub no_bracket : Lacks b')' l.rest

abbrev pub stat_of_line : ProcLine → LinuxProcStat
stat_of_line l = record {
  user_ticks = l.user;
  system_ticks = l.system;
  resident_pages = l.resident;
  threads = l.threads;
}

pub read_words-line_words :
    (l : ProcLine) → IsProcLine l → read_words 3 (line_words l) no_stat ≡ some (stat_of_line l)
unfolding set_field
read_words-line_words l h =
    read_words-plain l.first _ 4 no_stat (λ i lt. ground (arith, lt, h.first_length))
    ∙ rw
        (
          h.first_length,
          parse_unsigned_proc_field-show l.user h.user_fits,
          parse_unsigned_proc_field-show l.system h.system_fits,
        )
        (read_words-plain l.middle _ 16 _ (λ i lt. ground (arith, lt, h.middle_length))
          ∙ rw
              (
                h.middle_length,
                parse_unsigned_proc_field-show l.threads (omega (arith, h.threads_fit)),
                ltb-false long_limit l.threads (omega (arith, h.threads_fit)),
              )
              (read_words-plain l.last _ 21 _ (λ i lt. ground (arith, lt, h.last_length))
                ∙ rw (h.last_length, parse_unsigned_proc_field-show l.resident h.resident_fits)
                    refl))

pub length-line_words : (l : ProcLine) → IsProcLine l → length (line_words l) ≡ 22
length-line_words l h = omega (
  arith,
  h.first_length,
  h.middle_length,
  h.last_length,
  length-append l.first (
      show l.user
      ∷ show l.system
      ∷ (l.middle ++ show l.threads ∷ (l.last ++ show l.resident ∷ []))),
  length-append l.middle (show l.threads ∷ (l.last ++ show l.resident ∷ [])),
  length-append l.last (show l.resident ∷ []),
)
