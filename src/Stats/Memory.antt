-- ===== src/Stats/Memory.antt =====
-- src/stats/StatsMemory.cpp: the reading of /proc/meminfo and /proc/vmstat, and the history items.
pub mod Entries
use istatserverlinux.Prelude.{
  ℕ, zero, suc, ◌+◌, ◌*◌, ◌%◌, ◌^◌, Bool, true, false, ◌&&◌, List, [], ◌∷◌, ◌++◌, Option, none,
  some, ltb, ◌==◌, if◌then◌else◌,
}
use istatserverlinux.Prelude.Int.{ℤ, pos, negsuc, eqb_ℤ}
use istatserverlinux.Text.{Bytes, codes}
use istatserverlinux.Text.Scan.{Directive, unsigned, plain, natural_or, scan, fgets_lines}
use istatserverlinux.Stats.{Floats, Sample}
use istatserverlinux.Stats.Schedule.{SampleIndex}
use istatserverlinux.Prelude.Outcome.{Outcome}
use istatserverlinux.Stats.History.{Track, add_sample, update_history}
use istatserverlinux.Stats.Window.{fold_interval}

-- The variables t, f, a, i, swt, swf, c and b of update, in KB.
pub record Meminfo : Type 0 where
  pub t : ℕ
  pub f : ℕ
  pub a : ℕ
  pub i : ℕ
  pub swt : ℕ
  pub swf : ℕ
  pub c : ℕ
  pub b : ℕ

abbrev pub no_meminfo : Meminfo
no_meminfo = record { t = 0; f = 0; a = 0; i = 0; swt = 0; swf = 0; c = 0; b = 0 }

-- sscanf(buf, "Name: %llu kB", &old)
unfoldable pub scan_line : Bytes → Bytes → ℕ → ℕ
unfolding scan
scan_line name buf old =
    natural_or (scan (plain (name ++ codes ": ") ++ unsigned ∷ plain (codes " kB")) buf) old

unfoldable pub meminfo_line : Bytes → Meminfo → Meminfo
unfolding scan_line
meminfo_line buf m = record {
  t = scan_line (codes "MemTotal") buf m.t;
  f = scan_line (codes "MemFree") buf m.f;
  a = scan_line (codes "Active") buf m.a;
  i = scan_line (codes "Inactive") buf m.i;
  swt = scan_line (codes "SwapTotal") buf m.swt;
  swf = scan_line (codes "SwapFree") buf m.swf;
  c = scan_line (codes "Cached") buf m.c;
  b = scan_line (codes "Buffers") buf m.b;
}

abbrev pub meminfo_lines : List Bytes → Meminfo → Meminfo
meminfo_lines [] m = m
meminfo_lines (buf ∷ rest) m = meminfo_lines rest (meminfo_line buf m)

-- while (fgets(buf, sizeof(buf), fp))
unfoldable pub read_meminfo : Bytes → Meminfo
unfolding meminfo_line fgets_lines
read_meminfo file = meminfo_lines (fgets_lines 320 file) no_meminfo

-- swi and swo
abbrev pub vmstat_lines : List Bytes → ℕ × ℕ → ℕ × ℕ
vmstat_lines [] swap = swap
vmstat_lines (buf ∷ rest) (swi, swo) = vmstat_lines rest (
  natural_or (scan (plain (codes "pswpin ") ++ unsigned ∷ []) buf) swi,
  natural_or (scan (plain (codes "pswpout ") ++ unsigned ∷ []) buf) swo,
)

-- data->values[at] = value
abbrev pub put : ℕ → ℤ → (ℕ → ℤ) → ℕ → ℤ
put at value values x = if x == at then value else values x

abbrev pub minus_one : ℤ
minus_one = negsuc 999_999

-- prepareSample
abbrev pub prepare_sample : ℕ → ℤ
prepare_sample x = minus_one

-- KB to bytes, in 64 bits.
abbrev pub bytes_of : ℕ → ℕ
bytes_of kb = (kb * 1024) % 2 ^ 64

module _ (d : Floats) where
  -- The values that come of /proc/meminfo.
  unfoldable pub meminfo_values : Meminfo → ℕ → ℤ
  meminfo_values m =
      let total = d.of_ull (bytes_of m.t) in
      let free = d.of_ull (bytes_of m.f) in
      let active = d.of_ull (bytes_of m.a) in
      let inactive = d.of_ull (bytes_of m.i) in
      let swap_total = d.of_ull (bytes_of m.swt) in
      let cached = d.of_ull (bytes_of m.c) in
      let unknown = eqb_ℤ (pos 0) active && eqb_ℤ (pos 0) inactive && eqb_ℤ (pos 0) cached in
      put 0 total (
        put 1 free (
          put 3 (if unknown then d.sub total free else active) (
            put 4 inactive (
              put 7 swap_total (
                put 5 cached (
                  put 10 (d.of_ull (bytes_of m.b))
                    (put 6 (d.sub swap_total (d.of_ull (bytes_of m.swf))) prepare_sample)))))))

  abbrev pub add_vmstat : ℕ × ℕ → (ℕ → ℤ) → ℕ → ℤ
  add_vmstat (swi, swo) values =
      let used = d.sub (values 0) (d.add (d.add (values 1) (values 10)) (values 5)) in
      put 2 used (put 9 (d.of_ull swi) (put 8 (d.of_ull swo) values))

  -- update: a file that cannot be opened leaves the sample out.
  unfoldable pub update_memory : Option Bytes → Option Bytes → Track (ℕ → ℤ) → Track (ℕ → ℤ)
  unfolding read_meminfo meminfo_values fgets_lines scan
  update_memory none vmstat t = t
  update_memory (some meminfo) none t = t
  update_memory (some meminfo) (some vmstat) t =
      add_sample
        (add_vmstat (vmstat_lines (fgets_lines 320 vmstat) (0, 0))
          (meminfo_values (read_meminfo meminfo)))
        t

  abbrev add_values : (ℕ → ℤ) → (ℕ → ℤ) → ℕ → ℤ
  add_values sums values x = d.add (sums x) (values x)

  -- samples[0][0].values[x] == -1
  abbrev unset_first : List (Sample (ℕ → ℤ)) → ℕ → Bool
  unset_first [] x = false
  unset_first (first ∷ rest) x = eqb_ℤ (first.values x) minus_one

  -- historyItemAtIndex: a value that the newest sample does not have is left unset.
  unfoldable pub history_item_memory :
      List (Sample (ℕ → ℤ)) → SampleIndex → List (Sample (ℕ → ℤ)) → (ℕ → ℤ) × Bool
  unfolding fold_interval
  history_item_memory newest index from =
      let (sums, count) = fold_interval add_values index (λ x. pos 0) from in
      (
        λ x.
            if unset_first newest x
            then minus_one
            else if ltb 0 count
            then d.div (sums x) (d.of_ull count)
            else sums x,
        count == 0,
      )

  -- updateHistory: the tracks of the seven long intervals, behind that of sampleIndex[0].
  unfoldable pub update_memory_history :
      ℕ → ℕ → Track (ℕ → ℤ) → List (Track (ℕ → ℤ)) → Outcome (List (Track (ℕ → ℤ)))
  unfolding update_history history_item_memory
  update_memory_history fuel now first tracks =
      update_history (history_item_memory first.samples) fuel now first tracks
