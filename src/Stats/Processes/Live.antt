-- ===== src/Stats/Processes/Live.antt =====
-- One pass of src/stats/StatsProcesses.cpp against the set of the processes that are alive.
use istatserverlinux.Prelude.{
  ℕ, ◌+◌, Bool, true, false, List, [], ◌∷◌, Option, none, some, ◌==◌, if◌then◌else◌, length, ◌≡◌,
  refl, ap, ◌∙◌, arith, Bool-cases, inl, inr,
}
use istatserverlinux.Stats.{Floats, ProcessInfo}
use istatserverlinux.Stats.LinuxProcStat.{LinuxProcStat}
use istatserverlinux.Stats.Processes.{
  Processes, has_pid, ProcEntry, System, create_process, process_process, stat_of, read_stat,
  read_items, threads_of, read_entry, update_processes, unseen, prepare_processes, existing,
  finish_update,
}

-- No two items have the same process id.
abbrev pub AreSeparate : List ProcessInfo → Type 0
AreSeparate [] = Unit
AreSeparate (p ∷ items) = (has_pid items p.pid ≡ false) × AreSeparate items

abbrev pub exists_pid : List ProcessInfo → ℕ → Bool
exists_pid [] pid = false
exists_pid (p ∷ items) pid =
    if p.pid == pid then (if p.exists then true else exists_pid items pid) else exists_pid items pid

exists_pid-unseen : (items : List ProcessInfo) (pid : ℕ) → exists_pid (unseen items) pid ≡ false
exists_pid-unseen [] pid = refl
exists_pid-unseen (p ∷ items) pid = ground (arith, exists_pid-unseen items pid)

has_pid-unseen :
    (items : List ProcessInfo) (pid : ℕ) → has_pid (unseen items) pid ≡ has_pid items pid
has_pid-unseen [] pid = refl
has_pid-unseen (p ∷ items) pid = rw (has_pid-unseen items pid) refl

unseen-AreSeparate : (items : List ProcessInfo) → AreSeparate items → AreSeparate (unseen items)
unseen-AreSeparate [] h = tt
unseen-AreSeparate (p ∷ items) h =
    (rw (has_pid-unseen items p.pid) h.0, unseen-AreSeparate items h.1)

has_pid-existing :
    (items : List ProcessInfo) (pid : ℕ) → has_pid (existing items) pid ≡ exists_pid items pid
has_pid-existing [] pid = refl
has_pid-existing (p ∷ items) pid = ground (arith, has_pid-existing items pid)

exists_pid-absent :
    (items : List ProcessInfo) (pid : ℕ) → has_pid items pid ≡ false → exists_pid items pid ≡ false
exists_pid-absent [] pid h = refl
exists_pid-absent (p ∷ items) pid h = ground (arith, exists_pid-absent items pid)

existing-AreSeparate : (items : List ProcessInfo) → AreSeparate items → AreSeparate (existing items)
existing-AreSeparate [] h = tt
existing-AreSeparate (p ∷ items) h = elim (Bool-cases p.exists) [
  | inl e ↦ rw e (
    has_pid-existing items p.pid ∙ exists_pid-absent items p.pid h.0,
    existing-AreSeparate items h.1,
  )
  | inr e ↦ rw e (existing-AreSeparate items h.1)
]

has_pid-create :
    (pid : ℕ) (items : List ProcessInfo) → has_pid (create_process pid items) pid ≡ true
unfolding create_process
has_pid-create pid items = ground arith

exists_pid-create :
    (pid other : ℕ) (items : List ProcessInfo)
    → (pid == other) ≡ false
    → exists_pid (create_process pid items) other ≡ exists_pid items other
unfolding create_process
exists_pid-create pid other items h = ground (arith, h)

create-AreSeparate :
    (pid : ℕ) (items : List ProcessInfo)
    → AreSeparate items
    → AreSeparate (create_process pid items)
unfolding create_process
create-AreSeparate pid items h = elim (Bool-cases (has_pid items pid)) [
  | inl e ↦ rw e h
  | inr e ↦ rw e (e, h)
]

module _ (f : Floats) (sys : System) where
  -- Whether the files of the entry could be read.
  abbrev pub is_readable : ProcEntry → Bool
  is_readable e = elim (stat_of f sys e.stat) [ none ↦ false | some stat ↦ true ]

  module _ (e : ProcEntry) where
    pid-read_stat :
        (stat : Option (LinuxProcStat × ℕ)) (p : ProcessInfo)
        → (read_stat f sys e stat p).pid ≡ p.pid
    pid-read_stat none p = ground arith
    pid-read_stat (some (stat, memory)) p = ground arith

    abbrev is_some : Option (LinuxProcStat × ℕ) → Bool
    is_some o = elim o [ none ↦ false | some stat ↦ true ]

    exists-read_stat :
        (stat : Option (LinuxProcStat × ℕ)) (p : ProcessInfo)
        → (read_stat f sys e stat p).exists ≡ is_some stat
    exists-read_stat none p = refl
    exists-read_stat (some (stat, memory)) p = ground arith

    has_pid-read_items :
        (stat : Option (LinuxProcStat × ℕ)) (items : List ProcessInfo) (pid : ℕ)
        → has_pid (read_items f sys e stat items).0 pid ≡ has_pid items pid
    unfolding read_items
    has_pid-read_items stat [] pid = refl
    has_pid-read_items stat (p ∷ items) pid = elim (Bool-cases (p.pid == e.pid)) [
      | inl t ↦ rw (t, pid-read_stat stat p, has_pid-read_items stat items pid) refl
      | inr t ↦ rw (t, has_pid-read_items stat items pid) refl
    ]

    read_items-AreSeparate :
        (stat : Option (LinuxProcStat × ℕ)) (items : List ProcessInfo)
        → AreSeparate items
        → AreSeparate (read_items f sys e stat items).0
    unfolding read_items
    read_items-AreSeparate stat [] h = tt
    read_items-AreSeparate stat (p ∷ items) h = elim (Bool-cases (p.pid == e.pid)) [
      | inl t ↦ rw t (
        rw (pid-read_stat stat p, has_pid-read_items stat items p.pid) h.0,
        read_items-AreSeparate stat items h.1,
      )
      | inr t ↦
          rw t (rw (has_pid-read_items stat items p.pid) h.0, read_items-AreSeparate stat items h.1)
    ]

    exists_pid-read_items :
        (stat : Option (LinuxProcStat × ℕ)) (items : List ProcessInfo) (pid : ℕ)
        → exists_pid (read_items f sys e stat items).0 pid ≡ (
            if e.pid == pid
            then (if has_pid items pid then is_some stat else false)
            else exists_pid items pid)
    unfolding read_items
    exists_pid-read_items stat [] pid = ground arith
    exists_pid-read_items stat (p ∷ items) pid = elim (Bool-cases (p.pid == e.pid)) [
      | inl t ↦
          rw
            (t, pid-read_stat stat p, exists-read_stat stat p, exists_pid-read_items stat items pid)
            (ground (arith, t))
      | inr t ↦ rw (t, exists_pid-read_items stat items pid) (ground (arith, t))
    ]

    threads-none :
        (stat : Option (LinuxProcStat × ℕ)) (items : List ProcessInfo)
        → has_pid items e.pid ≡ false
        → (read_items f sys e stat items).1 ≡ 0
    unfolding read_items
    threads-none stat [] h = refl
    threads-none stat (p ∷ items) h = elim (Bool-cases (p.pid == e.pid)) [
      | inl t ↦ absurd (cc (rw t at h))
      | inr t ↦ rw t (threads-none stat items (rw t at h))
    ]

    threads-read_items :
        (stat : Option (LinuxProcStat × ℕ)) (items : List ProcessInfo)
        → AreSeparate items
        → has_pid items e.pid ≡ true
        → (read_items f sys e stat items).1 ≡ threads_of f sys stat
    unfolding read_items
    threads-read_items stat [] h k = cc
    threads-read_items stat (p ∷ items) h k = elim (Bool-cases (p.pid == e.pid)) [
      | inl t ↦
          let gone : has_pid items e.pid ≡ false = ground (arith, t, h.0) in
          rw (t, threads-none stat items gone) (omega arith)
      | inr t ↦ rw t (threads-read_items stat items h.1 (rw t at k))
    ]

  -- Whether the last entry of the process could be read.
  abbrev pub is_alive : List ProcEntry → Bool → ℕ → Bool
  is_alive [] before pid = before
  is_alive (e ∷ entries) before pid =
      is_alive entries (if e.pid == pid then is_readable e else before) pid

  -- The threads of the processes whose entries can be read.
  abbrev pub all_threads : List ProcEntry → ℕ
  all_threads [] = 0
  all_threads (e ∷ entries) = threads_of f sys (stat_of f sys e.stat) + all_threads entries

  read_entry-exists :
      (e : ProcEntry) (s : Processes) (pid : ℕ)
      → exists_pid (read_entry f sys e s).items pid
        ≡ (if e.pid == pid then is_readable e else exists_pid s.items pid)
  unfolding read_entry process_process
  read_entry-exists e s pid = elim (Bool-cases (e.pid == pid)) [
    | inl t ↦
        let same : e.pid ≡ pid = ground (arith, t) in
        let here : has_pid (create_process e.pid s.items) pid ≡ true =
          rw (← same) (has_pid-create e.pid s.items) in
        rw
          (
            exists_pid-read_items e (stat_of f sys e.stat) (create_process e.pid s.items) pid,
            t,
            here,
          )
          refl
    | inr t ↦
        rw
          (
            exists_pid-read_items e (stat_of f sys e.stat) (create_process e.pid s.items) pid,
            t,
            exists_pid-create e.pid pid s.items t,
          )
          refl
  ]

  read_entry-AreSeparate :
      (e : ProcEntry) (s : Processes)
      → AreSeparate s.items
      → AreSeparate (read_entry f sys e s).items
  unfolding read_entry process_process
  read_entry-AreSeparate e s h =
      read_items-AreSeparate e (stat_of f sys e.stat) (create_process e.pid s.items)
        (create-AreSeparate e.pid s.items h)

  read_entry-counts :
      (e : ProcEntry) (s : Processes)
      → AreSeparate s.items
      → ((read_entry f sys e s).process_count ≡ s.process_count + 1)
        × ((read_entry f sys e s).thread_count
            ≡ s.thread_count + threads_of f sys (stat_of f sys e.stat))
  unfolding read_entry process_process
  read_entry-counts e s h = (
    refl,
    ap (λ n. s.thread_count + n)
        (threads-read_items e (stat_of f sys e.stat) (create_process e.pid s.items)
          (create-AreSeparate e.pid s.items h) (has_pid-create e.pid s.items)),
  )

  update_processes_lem :
      (entries : List ProcEntry) (s : Processes)
      → AreSeparate s.items
      → let t = update_processes f sys entries s in
        ((pid : ℕ) → exists_pid t.items pid ≡ is_alive entries (exists_pid s.items pid) pid)
        × AreSeparate t.items
        × (t.process_count ≡ s.process_count + length entries)
        × (t.thread_count ≡ s.thread_count + all_threads entries)
  unfolding update_processes
  update_processes_lem [] s h = (λ pid. refl, h, omega arith, omega arith)
  update_processes_lem (e ∷ entries) s h =
      let (alive, separate, processes, threads) =
        update_processes_lem entries (read_entry f sys e s) (read_entry-AreSeparate e s h) in
      let (one, some_threads) = read_entry-counts e s h in
      (
        λ pid. alive pid ∙ ap (λ b. is_alive entries b pid) (read_entry-exists e s pid),
        separate,
        omega (arith, processes, one),
        omega (arith, threads, some_threads),
      )

  -- One pass over the entries of /proc, from any items with distinct process ids, keeps exactly one
  -- item for each process whose last entry can be read, and none for any other process. It counts
  -- every entry as a process, and the threads of the entries that can be read.
  pub finish_update-update_processes :
      (entries : List ProcEntry) (s : Processes)
      → AreSeparate s.items
      → let t = finish_update (update_processes f sys entries (prepare_processes s)) in
        ((pid : ℕ) → has_pid t.items pid ≡ is_alive entries false pid)
        × AreSeparate t.items
        × (t.process_count ≡ length entries)
        × (t.thread_count ≡ all_threads entries)
  unfolding finish_update prepare_processes
  finish_update-update_processes entries s h =
      let start = prepare_processes s in
      let (alive, separate, processes, threads) =
        update_processes_lem entries start (unseen-AreSeparate s.items h) in
      let all = update_processes f sys entries start in
      (
        λ pid.
            has_pid-existing all.items pid
            ∙ alive pid
            ∙ ap (λ b. is_alive entries b pid) (exists_pid-unseen s.items pid),
        existing-AreSeparate all.items separate,
        omega (arith, processes),
        omega (arith, threads),
      )
