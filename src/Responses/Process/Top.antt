-- ===== src/Responses/Process/Top.antt =====
-- Which processes `isr_process_data` of src/Responses.cpp puts into a reply.
use mathlib.Core.List.Perm
use mathlib.Core.List.{Perm}
use istatserverlinux.Prelude.{
  ℕ, zero, suc, ◌≤◌, Bool, true, false, List, [], ◌∷◌, ◌++◌, ◌≡◌, ◌⊎◌, inl, inr, refl, arith, ap,
  length, take, drop, take-append-drop, ltb, if◌then◌else◌, All, All-take, All-drop, Bool-cases,
}
use istatserverlinux.Prelude.Int.{ltb_ℤ}
use istatserverlinux.Prelude.Outcome.{done}
use istatserverlinux.Text.{Bytes, codes}
use istatserverlinux.Text.Number.{show}
use istatserverlinux.Stats.{Standard, ProcessInfo}
use istatserverlinux.Responses.Keys.{should_add_key}
use istatserverlinux.Responses.Samples.{cat}
use istatserverlinux.Responses.Process.{
  sort_processes_cpu, sort_processes_memory, last_sample_id, cpu_items, memory_items,
  isr_process_data,
}

module _ (Leads : ProcessInfo → ProcessInfo → Type 0) where
  -- Each process leads all that stand behind it.
  abbrev pub IsFalling : List ProcessInfo → Type 0
  IsFalling [] = Unit
  IsFalling (p ∷ ps) = All (Leads p) ps × IsFalling ps

  -- The first n of the processes: with the others they are all the processes, they are in falling
  -- order, they lead all the others, and they are n, or fewer where there are no others.
  pub record IsTop (n : ℕ) (top ps : List ProcessInfo) : Type 0 where
    pub others : List ProcessInfo
    pub whole : Perm (top ++ others) ps
    pub falls : IsFalling top
    pub leads : All (λ p. All (Leads p) others) top
    pub counts : (length top ≡ n) ⊎ (length top ≤ n) × (others ≡ [])

  IsFalling-take : (n : ℕ) (ps : List ProcessInfo) → IsFalling ps → IsFalling (take n ps)
  IsFalling-take zero ps h = tt
  IsFalling-take (suc n) [] h = tt
  IsFalling-take (suc n) (p ∷ ps) h = (All-take (Leads p) n ps h.0, IsFalling-take n ps h.1)

  IsFalling-split :
      (n : ℕ) (ps : List ProcessInfo)
      → IsFalling ps
      → All (λ p. All (Leads p) (drop n ps)) (take n ps)
  IsFalling-split zero ps h = tt
  IsFalling-split (suc n) [] h = tt
  IsFalling-split (suc n) (p ∷ ps) h = (All-drop (Leads p) n ps h.0, IsFalling-split n ps h.1)

  take_counts :
      (n : ℕ) (ps : List ProcessInfo)
      → (length (take n ps) ≡ n) ⊎ (length (take n ps) ≤ n) × (drop n ps ≡ [])
  take_counts zero ps = inl refl
  take_counts (suc n) [] = inr (omega arith, refl)
  take_counts (suc n) (p ∷ ps) = elim (take_counts n ps) [
    | inl e ↦ inl (ap suc e)
    | inr (short, e) ↦ inr (omega (arith, short), e)
  ]

  take-IsTop :
      (n : ℕ) (sorted ps : List ProcessInfo)
      → Perm sorted ps
      → IsFalling sorted
      → IsTop n (take n sorted) ps
  take-IsTop n sorted ps same falling = record {
    others = drop n sorted;
    whole = rw (take-append-drop n sorted) same;
    falls = IsFalling-take n sorted falling;
    leads = IsFalling-split n sorted falling;
    counts = take_counts n sorted;
  }

-- The order that std::sort asks for.
pub record IsWeakOrder (before : ProcessInfo → ProcessInfo → Bool) : Type 0 where
  pub asym : (p q : ProcessInfo) → before p q ≡ true → before q p ≡ false
  pub weak : (p q r : ProcessInfo) → before q p ≡ false → before r q ≡ false → before r p ≡ false

-- What std::sort promises for such an order: the same elements, and none goes before an earlier one.
pub record IsSort (sort : (ProcessInfo → ProcessInfo → Bool) → List ProcessInfo → List ProcessInfo)
    : Type 0 where
  pub permutes :
      (before : ProcessInfo → ProcessInfo → Bool)
      → IsWeakOrder before
      → (ps : List ProcessInfo) → Perm (sort before ps) ps
  pub orders :
      (before : ProcessInfo → ProcessInfo → Bool)
      → IsWeakOrder before
      → (ps : List ProcessInfo) → IsFalling (λ p q. before q p ≡ false) (sort before ps)

-- p uses no less of the processor than q; p uses no less memory than q.
abbrev pub IsBusier : ProcessInfo → ProcessInfo → Type 0
IsBusier p q = ltb_ℤ p.cpu q.cpu ≡ false

abbrev pub IsLarger : ProcessInfo → ProcessInfo → Type 0
IsLarger p q = q.memory ≤ p.memory

cpu-IsWeakOrder : IsWeakOrder sort_processes_cpu
cpu-IsWeakOrder = record { asym = λ p q e. ground arith; weak = λ p q r e f. ground arith }

memory-IsWeakOrder : IsWeakOrder sort_processes_memory
memory-IsWeakOrder = record { asym = λ p q e. ground arith; weak = λ p q r e f. ground arith }

All-IsLarger :
    (p : ProcessInfo) (ps : List ProcessInfo)
    → All (λ q. ltb p.memory q.memory ≡ false) ps
    → All (IsLarger p) ps
All-IsLarger p [] h = tt
All-IsLarger p (q ∷ ps) h = (ground (arith, h.0), All-IsLarger p ps h.1)

IsFalling-IsLarger :
    (ps : List ProcessInfo)
    → IsFalling (λ p q. ltb p.memory q.memory ≡ false) ps
    → IsFalling IsLarger ps
IsFalling-IsLarger [] h = tt
IsFalling-IsLarger (p ∷ ps) h = (All-IsLarger p ps h.0, IsFalling-IsLarger ps h.1)

module _ (standard : Standard) (sorts : IsSort standard.sort) where
  open standard use {sort}

  busiest-IsTop :
      (n : ℕ) (ps : List ProcessInfo) → IsTop IsBusier n (take n (sort sort_processes_cpu ps)) ps
  busiest-IsTop n ps =
      take-IsTop IsBusier n (sort sort_processes_cpu ps) ps
        (sorts.permutes sort_processes_cpu cpu-IsWeakOrder ps)
        (sorts.orders sort_processes_cpu cpu-IsWeakOrder ps)

  largest-IsTop :
      (n : ℕ) (list ps : List ProcessInfo)
      → Perm list ps
      → IsTop IsLarger n (take n (sort sort_processes_memory list)) ps
  largest-IsTop n list ps same =
      take-IsTop IsLarger n (sort sort_processes_memory list) ps
        (Perm.trans (sorts.permutes sort_processes_memory memory-IsWeakOrder list) same)
        (IsFalling-IsLarger _ (sorts.orders sort_processes_memory memory-IsWeakOrder list))

  -- What the second sort starts from.
  history_perm :
      (sorted : Bool) (ps : List ProcessInfo)
      → Perm (if sorted then sort sort_processes_cpu ps else ps) ps
  history_perm true ps = sorts.permutes sort_processes_cpu cpu-IsWeakOrder ps
  history_perm false ps = Perm.rfl

  -- Where std::sort keeps what it promises, the reply on some processes has, where the load is asked
  -- for, twenty processes, or all of fewer, in falling order of their load, none of the others with
  -- more; and where the memory is asked for, the twenty that are largest, in the same way.
  pub isr_process_data-IsTop :
      (p : ProcessInfo) (ps : List ProcessInfo) (keys added : List Bytes)
      → (busy : List ProcessInfo) × (large : List ProcessInfo) × IsTop IsBusier 20 busy (p ∷ ps)
        × IsTop IsLarger 20 large (p ∷ ps)
        × (isr_process_data standard (p ∷ ps) keys added ≡ (
            let cpu = should_add_key 0 (codes "cpu") keys added in
            let memory = should_add_key 0 (codes "memory") keys cpu.1 in
            done (
              cat (
                  codes "<stat type=\"processes\" interval=\"0\" id=\""
                  ∷ show (last_sample_id 0 (p ∷ ps))
                  ∷ codes "\">"
                  ∷ (if cpu.0 then cpu_items standard busy else [])
                  ∷ (if memory.0 then memory_items standard large else [])
                  ∷ codes "</stat>"
                  ∷ []),
              memory.1,
            )))
  unfolding isr_process_data
  isr_process_data-IsTop p ps keys added =
      let asked = (should_add_key 0 (codes "cpu") keys added).0 in
      let list = if asked then sort sort_processes_cpu (p ∷ ps) else p ∷ ps in
      (
        take 20 (sort sort_processes_cpu (p ∷ ps)),
        take 20 (sort sort_processes_memory list),
        busiest-IsTop 20 (p ∷ ps),
        largest-IsTop 20 list (p ∷ ps) (history_perm asked (p ∷ ps)),
        elim (Bool-cases asked) [ inl e ↦ rw e refl | inr e ↦ rw e refl ],
      )
