-- ===== src/Responses/Series.antt =====
-- `isr_cpu_data`, `isr_memory_data` and `isr_loadavg_data` of src/Responses.cpp: one `<stat>` for
-- each sample number in the request's `samples` attribute.
use istatserverlinux.Prelude.{ℕ, ◌+◌, List, [], ◌∷◌, ◌++◌, Option, none, some, length}
use istatserverlinux.Prelude.Int.{ℤ, pos, negsuc}
use istatserverlinux.Prelude.Outcome.{Outcome, done, deref, ◌>>=◌}
use istatserverlinux.Text.{Bytes, codes}
use istatserverlinux.Text.Number.{show}
use istatserverlinux.Text.Explode.{explode}
use istatserverlinux.Xml.{Node, get_prop}
use istatserverlinux.Stats.{Standard, Sample, CpuData, LoadData, Stats}
use istatserverlinux.Responses.Samples.{newer_double, newer_samples, at_index, show_time, cat, rows}

-- The loop over the identifiers: `stat x cursor` is the text of one, `x` their index.
unfoldable pub each_identifier : (ℕ → Bytes → Outcome Bytes) → ℕ → List Bytes → Outcome Bytes
each_identifier stat x [] = done []
each_identifier stat x (id ∷ ids) = do
  output ← stat x id
  rest ← each_identifier stat (x + 1) ids
  done (output ++ rest)

module _ (standard : Standard) where
  open standard use {show_double, read_double}

  cpu_row : Sample CpuData → Bytes
  unfolding cat
  cpu_row sample = cat (
      codes "<s id=\""
      ∷ show sample.sample_id
      ∷ codes "\" time=\""
      ∷ show_time sample.time
      ∷ codes "\" u=\""
      ∷ show_double sample.values.u
      ∷ codes "\" s=\""
      ∷ show_double sample.values.s
      ∷ codes "\" n=\""
      ∷ show_double sample.values.n
      ∷ codes "\" io=\""
      ∷ show_double sample.values.io
      ∷ codes "\""
      ∷ codes "></s>"
      ∷ [])

  unfoldable pub cpu_stat : Stats → ℕ → Bytes → Outcome Bytes
  unfolding cat rows cpu_row
  cpu_stat stats x id = do
    deque ← at_index stats.cpu.samples x
    sample_id ← at_index stats.cpu.sample_ids x
    let samples = newer_samples (newer_double (read_double id)) deque
    done (
        cat (
          codes "<stat type=\"cpu\" interval=\""
          ∷ show x
          ∷ codes "\" session=\""
          ∷ show stats.cpu.session
          ∷ codes "\" id=\""
          ∷ show sample_id
          ∷ codes "\" threads=\""
          ∷ show stats.thread_count
          ∷ codes "\" tasks=\""
          ∷ show stats.process_count
          ∷ codes "\" samples=\""
          ∷ show (length samples)
          ∷ codes "\">"
          ∷ rows cpu_row samples
          ∷ codes "</stat>"
          ∷ []))

  -- A request with no `samples` attribute makes a string of a null pointer.
  unfoldable pub isr_cpu_data : Node → Stats → Outcome Bytes
  unfolding cpu_stat each_identifier
  isr_cpu_data node stats = do
    identifiers ← deref (get_prop node (codes "samples"))
    each_identifier (cpu_stat stats) 0 (explode identifiers (codes "|"))

  load_row : Sample LoadData → Bytes
  unfolding cat
  load_row sample = cat (
      codes "<s id=\""
      ∷ show sample.sample_id
      ∷ codes "\" time=\""
      ∷ show_time sample.time
      ∷ codes "\" one=\""
      ∷ show_double sample.values.one
      ∷ codes "\" five=\""
      ∷ show_double sample.values.two
      ∷ codes "\" fifteen=\""
      ∷ show_double sample.values.three
      ∷ codes "\"></s>"
      ∷ [])

  unfoldable pub load_stat : Stats → ℕ → Bytes → Outcome Bytes
  unfolding cat rows load_row
  load_stat stats x id = do
    deque ← at_index stats.load.samples x
    sample_id ← at_index stats.load.sample_ids x
    let samples = newer_samples (newer_double (read_double id)) deque
    done (
        cat (
          codes "<stat type=\"load\" interval=\""
          ∷ show x
          ∷ codes "\" session=\""
          ∷ show stats.load.session
          ∷ codes "\" id=\""
          ∷ show sample_id
          ∷ codes "\" samples=\""
          ∷ show (length samples)
          ∷ codes "\">"
          ∷ rows load_row samples
          ∷ codes "</stat>"
          ∷ []))

  unfoldable pub isr_loadavg_data : Node → Stats → Outcome Bytes
  unfolding load_stat each_identifier
  isr_loadavg_data node stats = do
    identifiers ← deref (get_prop node (codes "samples"))
    each_identifier (load_stat stats) 0 (explode identifiers (codes "|"))

  -- An attribute under each of its names, where the value is not negative.
  memory_value : ℤ → List Bytes → Bytes
  memory_value value [] = []
  memory_value (negsuc n) names = []
  memory_value (pos n) (name ∷ names) =
      name ++ (show_double (pos n) ++ (b'"' ∷ memory_value (pos n) names))

  -- The numbers are the `memory_value_` constants of src/System.h.
  memory_row : Sample (ℕ → ℤ) → Bytes
  unfolding cat memory_value
  memory_row sample =
      let v = sample.values in
      cat (
        codes "<s id=\""
        ∷ show sample.sample_id
        ∷ codes "\" time=\""
        ∷ show_time sample.time
        ∷ codes "\""
        ∷ memory_value (v 13) (codes " file=\"" ∷ [])
        ∷ memory_value (v 12) (codes " ex=\"" ∷ [])
        ∷ memory_value (v 10) (codes " buf=\"" ∷ [])
        ∷ memory_value (v 2) (codes " u=\"" ∷ [])
        ∷ memory_value (v 11) (codes " w=\"" ∷ codes " wired=\"" ∷ [])
        ∷ memory_value (v 5) (codes " ca=\"" ∷ [])
        ∷ memory_value (v 16) (codes " compressed=\"" ∷ [])
        ∷ memory_value (v 17) (codes " pressure=\"" ∷ [])
        ∷ memory_value (v 3) (codes " a=\"" ∷ codes " active=\"" ∷ [])
        ∷ memory_value (v 4) (codes " i=\"" ∷ codes " inactive=\"" ∷ [])
        ∷ memory_value (v 1) (codes " f=\"" ∷ codes " free=\"" ∷ [])
        ∷ memory_value (v 0) (codes " t=\"" ∷ codes " total=\"" ∷ [])
        ∷ memory_value (v 6) (codes " su=\"" ∷ codes " swapused=\"" ∷ [])
        ∷ memory_value (v 7) (codes " st=\"" ∷ codes " swaptotal=\"" ∷ [])
        ∷ memory_value (v 9) (codes " pi=\"" ∷ codes " pageins=\"" ∷ codes " pagesinsf=\"" ∷ [])
        ∷ memory_value (v 8) (codes " po=\"" ∷ codes " pageouts=\"" ∷ codes " pageoutsf=\"" ∷ [])
        ∷ memory_value (v 14) (codes " vt=\"" ∷ [])
        ∷ memory_value (v 15) (codes " va=\"" ∷ [])
        ∷ codes "></s>"
        ∷ [])

  last_pressure : List (Sample (ℕ → ℤ)) → Option ℤ
  last_pressure [] = none
  last_pressure (sample ∷ rest) = elim (last_pressure rest) [
    | none ↦ some (sample.values 17)
    | some p ↦ some p
  ]

  front_pressure : List (Sample (ℕ → ℤ)) → ℤ
  front_pressure [] = negsuc 0
  front_pressure (sample ∷ rest) = sample.values 17

  -- That of the newest sample sent, or else of the newest of the first deque, or else -1.
  pressure_of : List (Sample (ℕ → ℤ)) → List (Sample (ℕ → ℤ)) → ℤ
  unfolding last_pressure front_pressure
  pressure_of samples first = elim (last_pressure samples) [
    | some p ↦ p
    | none ↦ front_pressure first
  ]

  unfoldable pub memory_stat : Stats → ℕ → Bytes → Outcome Bytes
  unfolding cat rows memory_row pressure_of
  memory_stat stats x id = do
    deque ← at_index stats.memory.samples x
    first ← at_index stats.memory.samples 0
    sample_id ← at_index stats.memory.sample_ids x
    let samples = newer_samples (newer_double (read_double id)) deque
    done (
        cat (
          codes "<stat type=\"memory\" interval=\""
          ∷ show x
          ∷ codes "\" session=\""
          ∷ show stats.memory.session
          ∷ codes "\" id=\""
          ∷ show sample_id
          ∷ codes "\" samples=\""
          ∷ show (length samples)
          ∷ codes "\""
          ∷ memory_value (pressure_of samples first) (codes " pressure=\"" ∷ [])
          ∷ codes ">"
          ∷ rows memory_row samples
          ∷ codes "</stat>"
          ∷ []))

  unfoldable pub isr_memory_data : Node → Stats → Outcome Bytes
  unfolding memory_stat each_identifier
  isr_memory_data node stats = do
    identifiers ← deref (get_prop node (codes "samples"))
    each_identifier (memory_stat stats) 0 (explode identifiers (codes "|"))
