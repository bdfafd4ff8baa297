-- ===== src/Tests/Collectors.antt =====
-- The collectors at concrete inputs.
use istatserverlinux.Prelude.{
  ℕ, zero, suc, ◌+◌, ◌≤◌, ◌<◌, List, [], ◌∷◌, some, ◌≡◌, ◌≢◌, refl, ◌⊎◌, arith, map,
}
use istatserverlinux.Prelude.Outcome.{done}
use istatserverlinux.Text.{Bytes, codes}
use istatserverlinux.Text.Number.{show}
use istatserverlinux.Stats.{Sample}
use istatserverlinux.Stats.LinuxProcStat.{LinuxProcStat, parse_linux_proc_stat}
use istatserverlinux.Stats.LinuxProcStat.Parts.{ProcLine, IsProcLine, line_text}
use istatserverlinux.Stats.LinuxProcStat.Whole.{parse_linux_proc_stat-line_text}
use istatserverlinux.Stats.Schedule.{SampleIndex, second, fill_gaps_at_index}
use istatserverlinux.Stats.Schedule.Gaps.{IsCaughtUp, fill_gaps_at_index_lem}
use istatserverlinux.Stats.History.{Track, Load, Arithmetic, history_item, update_track}
use istatserverlinux.Stats.History.Kept.{IsKept, update_track-IsKept}
use istatserverlinux.Stats.History.FiveMinutes.{with_two, history_item-with_two}

abbrev three_pages : LinuxProcStat
three_pages = record { user_ticks = 0; system_ticks = 0; resident_pages = 3; threads = 1 }

abbrev zeros : ℕ → List Bytes
zeros zero = []
zeros (suc n) = codes "0" ∷ zeros n

-- The name is `a) b (`.
abbrev line : ProcLine
line = record {
  pid = 42;
  comm = codes "a) b (";
  state = b'S';
  first = zeros 10;
  user = 7;
  system = 8;
  middle = zeros 4;
  threads = 2;
  last = zeros 3;
  resident = 99;
  rest = codes "5 6";
}

line-IsProcLine : IsProcLine line
unfolding show
line-IsProcLine = record {
  pid_positive = omega arith;
  pid_fits = omega arith;
  words = ground arith;
  first_length = refl;
  middle_length = refl;
  last_length = refl;
  user_fits = omega arith;
  system_fits = omega arith;
  threads_fit = omega arith;
  resident_fits = omega arith;
  no_bracket = omega arith;
}

parse_linux_proc_stat-line_text_example :
    parse_linux_proc_stat (line_text line)
    ≡ some (record { user_ticks = 7; system_ticks = 8; resident_pages = 99; threads = 2 })
parse_linux_proc_stat-line_text_example = parse_linux_proc_stat-line_text line line-IsProcLine

-- The hourly samples, the next due at 6 seconds.
abbrev hour : SampleIndex
hour = record {
  sample_id = 1;
  time = 0;
  next_time = 6_000_000;
  interval = 6_000_000;
  history_index = 0;
}

fill_gaps_at_index_lem_example :
    (j : SampleIndex) × (fill_gaps_at_index 14_000_001 20_000_000 hour ≡ done j)
    × ((hour.next_time ≡ 0)
          × (j.sample_id ≡ hour.sample_id)
          × (j.next_time ≡ j.time + hour.interval)
          × (20_000_000 ≤ j.time)
          × (j.time < 20_000_000 + second)
        ⊎ (hour.next_time ≢ 0) × IsCaughtUp 20_000_000 hour j)
fill_gaps_at_index_lem_example =
    fill_gaps_at_index_lem 14_000_001 20_000_000 hour (omega arith) (omega arith)

-- Natural numbers as loads.
abbrev numbers : Arithmetic ℕ
numbers = record { nought = 0; add = λ a b. a + b; divide = λ a n. a; narrow = λ a. a }

abbrev load_sample : Sample (Load ℕ)
load_sample = record {
  sample_id = 1;
  time = 1_000_000;
  values = record { one = 4; two = 5; three = 6 };
}

abbrev hourly : Track (Load ℕ)
hourly = record { index = hour; samples = []; queue = [] }

hourly-IsKept : IsKept hourly
hourly-IsKept = record { newest_first = tt; numbered = tt; short = omega arith }

update_track-IsKept_example :
    (u : Track (Load ℕ)) × (update_track
        (history_item numbers)
        14_000_001
        20_000_000
        (load_sample ∷ [])
        hourly
      ≡ done u)
    × IsKept u
    × (20_000_000 ≤ u.index.next_time)
update_track-IsKept_example =
    update_track-IsKept (history_item numbers) 14_000_001 20_000_000 (load_sample ∷ []) hourly
      hourly-IsKept (omega arith) (omega arith)

history_item-with_two_example :
    ((history_item numbers hour (load_sample ∷ [])).0.two
      ≡ (history_item numbers hour (load_sample ∷ [])).0.three)
    × (history_item numbers hour (map (with_two numbers (λ s. 9)) (load_sample ∷ []))
        ≡ history_item numbers hour (load_sample ∷ []))
history_item-with_two_example = history_item-with_two numbers hour (λ s. 9) (load_sample ∷ [])
