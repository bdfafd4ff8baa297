-- ===== src/Stats/Cpu.antt =====
-- src/stats/StatsCPU.cpp: the usage between two readings of the counters, the reading of /proc/stat,
-- and the history items.
use istatserverlinux.Prelude.{
  ℕ, ◌+◌, ◌%◌, ◌^◌, Bool, true, false, List, [], ◌∷◌, ◌++◌, Option, none, some, ltb, ◌==◌,
  if◌then◌else◌,
}
use istatserverlinux.Prelude.Int.{ℤ, pos, negsuc, ltb_ℤ}
use istatserverlinux.Text.{Bytes, codes}
use istatserverlinux.Text.Scan.{Directive, unsigned, skip, plain, Value, natural, scan, fgets_lines}
use istatserverlinux.Stats.{Floats, Sample, CpuData}
use istatserverlinux.Stats.Schedule.{SampleIndex}
use istatserverlinux.Prelude.Outcome.{Outcome}
use istatserverlinux.Stats.History.{Track, add_sample, update_history}
use istatserverlinux.Stats.Window.{fold_interval}
use istatserverlinux.Stats.Items.{sub64}

-- The counters, in the order of `last_ticks`.
pub record Ticks : Type 0 where
  pub user : ℕ
  pub nice : ℕ
  pub kernel : ℕ
  pub idle : ℕ
  pub wait : ℕ

pub record Cpu : Type 0 where
  pub last_ticks : Ticks
  pub ticks : ℤ
  pub has_io_wait : Bool
  pub track : Track CpuData

abbrev pub no_ticks : Ticks
no_ticks = record { user = 0; nice = 0; kernel = 0; idle = 0; wait = 0 }

-- The four counters that make up the ticks: the wait is not one of them.
abbrev pub four : Ticks → ℕ
four t = (t.user + t.kernel + t.nice + t.idle) % 2 ^ 64

module _ (f : Floats) where
  abbrev pub percent : ℕ → ℕ → ℤ → ℤ
  percent new old ticks = f.mul (f.div (f.of_ull (sub64 new old)) ticks) (pos 100_000_000)

  abbrev pub usage : Ticks → Ticks → ℤ → CpuData
  usage new old ticks =
      if ltb_ℤ (pos 0) ticks
      then record {
        u = percent new.user old.user ticks;
        s = percent new.kernel old.kernel ticks;
        n = percent new.nice old.nice ticks;
        i = percent new.idle old.idle ticks;
        io = percent new.wait old.wait ticks;
        ent = negsuc 999_999;
        phys = negsuc 999_999;
      }
      else record {
        u = pos 0;
        s = pos 0;
        n = pos 0;
        i = pos 0;
        io = pos 0;
        ent = negsuc 999_999;
        phys = negsuc 999_999;
      }

  -- A total of 0 stands for a system that does not count one. With the user counter still 0 the last
  -- counters are taken to be those now.
  unfoldable pub process_sample : Ticks → ℕ → Cpu → Cpu
  process_sample new total c =
      if ltb 0 total
      then record c {
        ticks = f.of_ull total;
        track = add_sample (usage new c.last_ticks (f.of_ull total)) c.track;
      }
      else (let old = if c.last_ticks.user == 0 then new else c.last_ticks in
          let ticks = f.sub (f.of_ull (four new)) (f.of_ull (four old)) in
          record c {
            ticks = ticks;
            track = add_sample (usage new old ticks) c.track;
            last_ticks = new;
          })

  -- How many values the five conversions of init give.
  abbrev pub is_one : List Value → Bool
  is_one (natural n ∷ []) = true
  is_one _ = false

  -- init: the first line of /proc/stat, where it can be read.
  unfoldable pub init_procfs : Option Bytes → Cpu → Cpu
  unfolding scan fgets_lines
  init_procfs none c = record c { last_ticks = no_ticks; has_io_wait = false }
  init_procfs (some stat) c = elim (fgets_lines 320 stat) [
    | [] ↦ record c { last_ticks = no_ticks; has_io_wait = false }
    | buf ∷ rest ↦ record c {
      last_ticks = no_ticks;
      has_io_wait = is_one (
          scan
            (plain (codes "cpu ")
              ++ (skip ∷ plain (codes " ")
                  ++ (skip ∷ plain (codes " ")
                      ++ (skip ∷ plain (codes " ")
                          ++ (skip ∷ plain (codes " ") ++ unsigned ∷ [])))))
            buf);
    }
  ]

  -- The variables that sscanf assigns, in the order of the line.
  abbrev pub to_ticks : List Value → Ticks
  to_ticks [] = no_ticks
  to_ticks (natural a ∷ []) = record no_ticks { user = a }
  to_ticks (natural a ∷ natural b ∷ []) = record no_ticks { user = a; nice = b }
  to_ticks (natural a ∷ natural b ∷ natural c ∷ []) = record no_ticks {
    user = a;
    nice = b;
    kernel = c;
  }
  to_ticks (natural a ∷ natural b ∷ natural c ∷ natural d ∷ []) = record no_ticks {
    user = a;
    nice = b;
    kernel = c;
    idle = d;
  }
  to_ticks (natural a ∷ natural b ∷ natural c ∷ natural d ∷ natural e ∷ rest) = record {
    user = a;
    nice = b;
    kernel = c;
    idle = d;
    wait = e;
  }
  to_ticks _ = no_ticks

  abbrev cpu_format : List Directive → List Directive
  cpu_format last =
      plain (codes "cpu ")
      ++ (unsigned ∷ plain (codes " ")
          ++ (unsigned ∷ plain (codes " ") ++ (unsigned ∷ plain (codes " ") ++ unsigned ∷ last)))

  -- The first of the lines that fgets gives.
  abbrev pub read_stat_line : Cpu → List Bytes → Cpu
  read_stat_line c [] = c
  read_stat_line c (buf ∷ rest) =
      process_sample
        (to_ticks (
          scan (cpu_format (if c.has_io_wait then plain (codes " ") ++ unsigned ∷ [] else [])) buf))
        0 c

  -- update
  unfoldable pub update_procfs : Option Bytes → Cpu → Cpu
  unfolding scan fgets_lines process_sample
  update_procfs none c = c
  update_procfs (some stat) c = read_stat_line c (fgets_lines 320 stat)

  abbrev pub add_cpu : CpuData → CpuData → CpuData
  add_cpu sums v = record sums {
    u = f.add sums.u v.u;
    s = f.add sums.s v.s;
    n = f.add sums.n v.n;
    io = f.add sums.io v.io;
  }

  abbrev pub average : ℤ → ℕ → ℤ
  average sum count = if ltb 0 count then f.div sum (f.of_ull count) else sum

  -- historyItemAtIndex leaves i, ent and phys unset: `rest` holds what they happen to be.
  unfoldable pub history_item_cpu : CpuData → SampleIndex → List (Sample CpuData) → CpuData × Bool
  unfolding fold_interval
  history_item_cpu rest index from =
      let (sums, count) =
        fold_interval add_cpu index (record rest { u = pos 0; s = pos 0; n = pos 0; io = pos 0 })
          from in
      (
        record sums {
          u = average sums.u count;
          s = average sums.s count;
          n = average sums.n count;
          io = average sums.io count;
        },
        count == 0,
      )

  -- updateHistory: the tracks of the seven long intervals, behind that of sampleIndex[0].
  unfoldable pub update_cpu_history :
      CpuData → ℕ → ℕ → Cpu → List (Track CpuData) → Outcome (List (Track CpuData))
  unfolding update_history history_item_cpu
  update_cpu_history rest fuel now c tracks =
      update_history (history_item_cpu rest) fuel now c.track tracks
