-- ===== src/Responses/Process.antt =====
-- `isr_process_data` of src/Responses.cpp: the twenty busiest processes and the twenty largest.
pub mod Top
use istatserverlinux.Prelude.{ℕ, Bool, List, [], ◌∷◌, ◌++◌, if◌then◌else◌, ltb, take}
use istatserverlinux.Prelude.Int.{ltb_ℤ}
use istatserverlinux.Prelude.Outcome.{Outcome, done}
use istatserverlinux.Text.{Bytes, codes}
use istatserverlinux.Text.Number.{show}
use istatserverlinux.Stats.{Standard, ProcessInfo}
use istatserverlinux.Responses.Escape.{encode_for_xml}
use istatserverlinux.Responses.Keys.{should_add_key}
use istatserverlinux.Responses.Samples.{cat}
use istatserverlinux.Responses.Item.{Added}

-- sortProcessesCPU, sortProcessesMemory: whether i goes before j.
abbrev pub sort_processes_cpu : ProcessInfo → ProcessInfo → Bool
sort_processes_cpu i j = ltb_ℤ j.cpu i.cpu

abbrev pub sort_processes_memory : ProcessInfo → ProcessInfo → Bool
sort_processes_memory i j = ltb j.memory i.memory

unfoldable pub last_sample_id : ℕ → List ProcessInfo → ℕ
last_sample_id id [] = id
last_sample_id id (p ∷ ps) = last_sample_id p.sample_id ps

module _ (standard : Standard) where
  open standard use {show_double, sort}

  unfoldable pub cpu_items : List ProcessInfo → Bytes
  unfolding cat
  cpu_items [] = []
  cpu_items (p ∷ ps) =
      cat (
        codes "<item key=\""
        ∷ show p.pid
        ∷ codes "\" c=\""
        ∷ show_double p.cpu
        ∷ codes "\" name=\""
        ∷ encode_for_xml p.name
        ∷ codes "\"></item>"
        ∷ [])
      ++ cpu_items ps

  unfoldable pub memory_items : List ProcessInfo → Bytes
  unfolding cat
  memory_items [] = []
  memory_items (p ∷ ps) =
      cat (
        codes "<item key=\""
        ∷ show p.pid
        ∷ codes "\" m=\""
        ∷ show p.memory
        ∷ codes "\" name=\""
        ∷ encode_for_xml p.name
        ∷ codes "\"></item>"
        ∷ [])
      ++ memory_items ps

  -- The second sort starts from what the first left, if it was made.
  unfoldable pub isr_process_data : List ProcessInfo → List Bytes → List Bytes → Outcome Added
  unfolding cat last_sample_id cpu_items memory_items
  isr_process_data [] keys added =
      done (codes "<stat type=\"processes\" interval=\"0\" id=\"0\"></stat>", added)
  isr_process_data (p ∷ ps) keys added =
      let (by_cpu, added') = should_add_key 0 (codes "cpu") keys added in
      let history = if by_cpu then sort sort_processes_cpu (p ∷ ps) else p ∷ ps in
      let (by_memory, added'') = should_add_key 0 (codes "memory") keys added' in
      done (
        cat (
            codes "<stat type=\"processes\" interval=\"0\" id=\""
            ∷ show (last_sample_id 0 (p ∷ ps))
            ∷ codes "\">"
            ∷ (if by_cpu then cpu_items (take 20 history) else [])
            ∷ (if by_memory
                then memory_items (take 20 (sort sort_processes_memory history))
                else [])
            ∷ codes "</stat>"
            ∷ []),
        added'',
      )
