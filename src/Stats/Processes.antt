-- ===== src/Stats/Processes.antt =====
-- src/stats/StatsProcesses.cpp with the files of /proc: one pass over the processes. What the files
-- hold, the clock and the system's constants are parameters.
pub mod Names
pub mod Live
use istatserverlinux.Prelude.{
  ℕ, zero, suc, ◌+◌, ◌-◌, Bool, true, false, not, List, [], ◌∷◌, ◌++◌, Option, none, some, ltb,
  ◌==◌, if◌then◌else◌, length,
}
use istatserverlinux.Prelude.Int.{ℤ, pos, ltb_ℤ, eqb_ℤ}
use istatserverlinux.Text.{Bytes}
use istatserverlinux.Stats.{Floats, ProcessInfo}
use istatserverlinux.Stats.LinuxProcStat.{LinuxProcStat, parse_linux_proc_stat, resident_bytes}
use Names.{process_name}

pub record Processes : Type 0 where
  pub items : List ProcessInfo
  pub process_count : ℕ
  pub thread_count : ℕ

abbrev pub has_pid : List ProcessInfo → ℕ → Bool
has_pid [] pid = false
has_pid (p ∷ items) pid = if p.pid == pid then true else has_pid items pid

-- What the directory of one process holds (`none` for a file that cannot be read), and the three
-- times that the clock gives while it is read.
pub record ProcEntry : Type 0 where
  pub pid : ℕ
  pub status : Bytes
  pub cmdline : Option Bytes
  pub stat : Option Bytes
  pub first_time : ℤ
  pub difference_time : ℤ
  pub last_time : ℤ

unfoldable pub create_process : ℕ → List ProcessInfo → List ProcessInfo
create_process pid items =
    if has_pid items pid
    then items
    else record {
      exists = true;
      is_new = true;
      cpu_time = pos 0;
      last_clock_time = pos 0;
      threads = 0;
      pid = pid;
      cpu = pos 0;
      memory = 0;
      name = [];
      sample_id = 0;
    }
      ∷ items

unfoldable pub process_process : ℕ → Processes → Processes
unfolding create_process
process_process pid s = record s {
  process_count = s.process_count + 1;
  items = create_process pid s.items;
}

-- The system's page size, clock ticks and processors.
pub record System : Type 0 where
  pub page_size : ℕ
  pub clock_ticks : ℕ
  pub processors : ℤ

module _ (f : Floats) (sys : System) where
  -- if (procs < 1) procs = 1
  abbrev pub processors_of : ℤ
  processors_of =
      if ltb_ℤ (f.of_ll sys.processors) (pos 1_000_000)
      then pos 1_000_000
      else f.of_ll sys.processors

  abbrev pub at_least_zero : ℤ → ℤ
  at_least_zero x = if ltb_ℤ x (pos 0) then pos 0 else x

  -- The times that a process starts from: those now, where it has none.
  abbrev pub started : ℤ → ProcEntry → ProcessInfo → ProcessInfo
  started total e p =
      if eqb_ℤ p.cpu_time (pos 0)
      then record p { cpu_time = total; last_clock_time = e.first_time }
      else p

  abbrev pub cpu_share : ℤ → ProcEntry → ProcessInfo → ℤ
  cpu_share total e p =
      let used = at_least_zero (f.sub total p.cpu_time) in
      let clock = f.sub e.difference_time p.last_clock_time in
      if ltb_ℤ (pos 0) clock
      then f.div (f.mul (f.div (f.div used (f.of_ull sys.clock_ticks)) clock) (pos 100_000_000))
          processors_of
      else pos 0

  abbrev pub counted : LinuxProcStat → ℕ → ProcEntry → ProcessInfo → ProcessInfo
  counted stat memory e old =
      let total = f.add (f.of_ull stat.user_ticks) (f.of_ull stat.system_ticks) in
      let p = started total e old in
      record p {
        cpu = cpu_share total e p;
        threads = stat.threads;
        memory = memory;
        cpu_time = total;
        last_clock_time = e.last_time;
      }

  -- The counts of a readable stat file; `none` makes the process one that does not exist.
  abbrev pub stat_of : Option Bytes → Option (LinuxProcStat × ℕ)
  stat_of none = none
  stat_of (some text) = elim (parse_linux_proc_stat text) [
    | none ↦ none
    | some stat ↦ elim (resident_bytes stat sys.page_size) [
      | none ↦ none
      | some memory ↦ some (stat, memory)
    ]
  ]

  abbrev pub named : ProcEntry → ProcessInfo → ProcessInfo
  named e p =
      if p.is_new
      then record p { exists = true; is_new = false; name = process_name e.status e.cmdline }
      else record p { exists = true }

  abbrev pub read_stat : ProcEntry → Option (LinuxProcStat × ℕ) → ProcessInfo → ProcessInfo
  read_stat e none p = record (named e p) { exists = false }
  read_stat e (some (stat, memory)) p = counted stat memory e (named e p)

  abbrev pub threads_of : Option (LinuxProcStat × ℕ) → ℕ
  threads_of none = 0
  threads_of (some (stat, memory)) = stat.threads

  -- The loop over all items of the process, with the threads that it adds.
  unfoldable pub read_items :
      ProcEntry → Option (LinuxProcStat × ℕ) → List ProcessInfo → List ProcessInfo × ℕ
  unfolding process_name
  read_items e stat [] = ([], 0)
  read_items e stat (p ∷ items) =
      let (rest, threads) = read_items e stat items in
      if p.pid == e.pid
      then (read_stat e stat p ∷ rest, threads_of stat + threads)
      else (p ∷ rest, threads)

  unfoldable pub read_entry : ProcEntry → Processes → Processes
  unfolding process_process read_items parse_linux_proc_stat resident_bytes
  read_entry e s =
      let t = process_process e.pid s in
      let (items, threads) = read_items e (stat_of e.stat) t.items in
      record t { items = items; thread_count = t.thread_count + threads }

  -- update: the entries of /proc whose names are numbers.
  unfoldable pub update_processes : List ProcEntry → Processes → Processes
  unfolding read_entry
  update_processes [] s = s
  update_processes (e ∷ entries) s = update_processes entries (read_entry e s)

abbrev pub unseen : List ProcessInfo → List ProcessInfo
unseen [] = []
unseen (p ∷ items) = record p { exists = false } ∷ unseen items

-- prepareUpdate
unfoldable pub prepare_processes : Processes → Processes
prepare_processes s = record { items = unseen s.items; process_count = 0; thread_count = 0 }

abbrev pub existing : List ProcessInfo → List ProcessInfo
existing [] = []
existing (p ∷ items) = if p.exists then p ∷ existing items else existing items

-- finishUpdate
unfoldable pub finish_update : Processes → Processes
finish_update s = record s { items = existing s.items }
