-- ===== src/Stats/Memory/Entries.antt =====
-- What src/stats/StatsMemory.cpp reads of a /proc/meminfo with any entries in it.
use istatserverlinux.Prelude.{
  ℕ, zero, suc, ◌+◌, ◌<◌, ◌^◌, Bool, true, false, ◌||◌, List, [], ◌∷◌, ◌++◌, ◌==◌, if◌then◌else◌,
  length, ◌≡◌, refl, ap, ◌∙◌, arith, All, All-append, Bool-cases, inl, inr, append_assoc,
}
use istatserverlinux.Text.{Bytes, codes, str_eq}
use istatserverlinux.Text.Number.{is_space, is_digit, skip_space, show, show-Digits, clamp_ulong}
use istatserverlinux.Text.Scan.{
  Directive, blank, unsigned, plain, natural, natural_or, scan, digits_length,
}
use istatserverlinux.Text.Scan.Lines.{
  scan_number-show, skip_space-show, HasNoFeed, joined, fed, fgets_lines-joined,
}
use istatserverlinux.Stats.Memory.{
  Meminfo, no_meminfo, scan_line, meminfo_line, meminfo_lines, read_meminfo,
}

-- A name, the spaces in front of the number, and the number.
pub record Entry : Type 0 where
  pub name : Bytes
  pub pad : ℕ
  pub value : ℕ

abbrev pub spaces : ℕ → Bytes
spaces zero = []
spaces (suc n) = 32 ∷ spaces n

-- "Name:   120 kB"
abbrev pub entry_text : Entry → Bytes
entry_text e = e.name ++ (b':' ∷ (spaces e.pad ++ (show e.value ++ codes " kB")))

-- No white space and no colon.
abbrev pub IsName : Bytes → Type 0
IsName = All (λ c. (is_space c ≡ false) × ((c == b':') ≡ false))

abbrev is_name : Bytes → Bool
is_name [] = true
is_name (c ∷ s) = if is_space c || c == b':' then false else is_name s

pub plain-IsName : (s : Bytes) → is_name s ≡ true → IsName s
plain-IsName [] h = tt
plain-IsName (c ∷ s) h = elim (Bool-cases (is_space c || c == b':')) [
  | inl e ↦ cc (e, h)
  | inr e ↦ (ground (arith, e), plain-IsName s (rw e at h))
]

skip_space-spaces : (pad : ℕ) (s : Bytes) → skip_space (spaces pad ++ s) ≡ skip_space s
unfolding skip_space
skip_space-spaces zero s = refl
skip_space-spaces (suc pad) s = skip_space-spaces pad s

scan_name :
    (name key : Bytes) (format : List Directive) (more : Bytes)
    → IsName name
    → IsName key
    → scan (plain (name ++ codes ": ") ++ format) (key ++ (b':' ∷ more))
      ≡ (if str_eq name key then scan (blank ∷ format) more else [])
unfolding scan str_eq
scan_name [] [] format more h k = refl
scan_name [] (c ∷ key) format more h k =
    let e : (b':' == c) ≡ false = ground (arith, k.0.1) in rw e refl
scan_name (x ∷ name) [] format more h k = rw (h.0.0, h.0.1) refl
scan_name (x ∷ name) (c ∷ key) format more h k = elim (Bool-cases (x == c)) [
  | inl e ↦ rw (h.0.0, e) (scan_name name key format more h.1 k.1)
  | inr e ↦ rw (h.0.0, e) refl
]

abbrev unit_of : Bytes
unit_of = codes " kB\n"

digits_length_unit : digits_length unit_of ≡ 0
unfolding digits_length
digits_length_unit = refl

scan_value :
    (pad n : ℕ) (format : List Directive)
    → n < 2 ^ 64
    → scan (blank ∷ unsigned ∷ format) (spaces pad ++ (show n ++ unit_of))
      ≡ natural n ∷ scan format unit_of
unfolding scan
scan_value pad n format h =
    let fits : clamp_ulong false n ≡ n = ground (arith, h) in
    rw
      (
        skip_space-spaces pad (show n ++ unit_of),
        skip_space-show n unit_of,
        scan_number-show n unit_of (digits_length_unit),
        fits,
      )
      refl

entry_line :
    (e : Entry)
    → entry_text e ++ 10 ∷ [] ≡ e.name ++ (b':' ∷ (spaces e.pad ++ (show e.value ++ unit_of)))
entry_line e = simp append_assoc

-- A line changes the variable of its name, and no other.
scan_line-entry :
    (name : Bytes) (e : Entry) (old : ℕ)
    → IsName name
    → IsName e.name
    → e.value < 2 ^ 64
    → scan_line name (entry_text e ++ 10 ∷ []) old ≡ (if str_eq name e.name then e.value else old)
unfolding scan_line
scan_line-entry name e old h k l =
    rw
      (
        entry_line e,
        scan_name name e.name (unsigned ∷ plain (codes " kB"))
            (spaces e.pad ++ (show e.value ++ unit_of)) h k,
        scan_value e.pad e.value (plain (codes " kB")) l,
      )
      (pick (str_eq name e.name))
  where
    pick :
        (b : Bool)
        → natural_or (if b then natural e.value ∷ scan (plain (codes " kB")) unit_of else []) old
          ≡ (if b then e.value else old)
    pick true = refl
    pick false = refl

-- The number in the last line of the name, or `old` where there is none.
abbrev pub last_value : Bytes → List Entry → ℕ → ℕ
last_value name [] old = old
last_value name (e ∷ entries) old =
    last_value name entries (if str_eq name e.name then e.value else old)

abbrev pub last_values : List Entry → Meminfo → Meminfo
last_values entries m = record {
  t = last_value (codes "MemTotal") entries m.t;
  f = last_value (codes "MemFree") entries m.f;
  a = last_value (codes "Active") entries m.a;
  i = last_value (codes "Inactive") entries m.i;
  swt = last_value (codes "SwapTotal") entries m.swt;
  swf = last_value (codes "SwapFree") entries m.swf;
  c = last_value (codes "Cached") entries m.c;
  b = last_value (codes "Buffers") entries m.b;
}

-- A name with no white space or colon, a number of 64 bits, and a line that fits in the buffer.
abbrev pub IsEntry : Entry → Type 0
IsEntry e = IsName e.name × (e.value < 2 ^ 64) × (length (entry_text e) + 1 < 320)

abbrev pub texts : List Entry → List Bytes
texts [] = []
texts (e ∷ entries) = entry_text e ∷ texts entries

meminfo_line-entry :
    (e : Entry) (m : Meminfo)
    → IsEntry e
    → meminfo_line (entry_text e ++ 10 ∷ []) m ≡ last_values (e ∷ []) m
unfolding meminfo_line
meminfo_line-entry e m (k, l, s) =
    let line = λ (name : Bytes) (old : ℕ) (h : IsName name). scan_line-entry name e old h k l in
    rw
      (
        line (codes "MemTotal") m.t (plain-IsName (codes "MemTotal") refl),
        line (codes "MemFree") m.f (plain-IsName (codes "MemFree") refl),
        line (codes "Active") m.a (plain-IsName (codes "Active") refl),
        line (codes "Inactive") m.i (plain-IsName (codes "Inactive") refl),
        line (codes "SwapTotal") m.swt (plain-IsName (codes "SwapTotal") refl),
        line (codes "SwapFree") m.swf (plain-IsName (codes "SwapFree") refl),
        line (codes "Cached") m.c (plain-IsName (codes "Cached") refl),
        line (codes "Buffers") m.b (plain-IsName (codes "Buffers") refl),
      )
      refl

meminfo_lines-fed :
    (entries : List Entry) (m : Meminfo)
    → All IsEntry entries
    → meminfo_lines (fed (texts entries)) m ≡ last_values entries m
meminfo_lines-fed [] m h = refl
meminfo_lines-fed (e ∷ entries) m h =
    ap (meminfo_lines (fed (texts entries))) (meminfo_line-entry e m h.0)
    ∙ meminfo_lines-fed entries (last_values (e ∷ []) m) h.1

IsName-HasNoFeed : (name : Bytes) → IsName name → HasNoFeed name
IsName-HasNoFeed [] h = tt
IsName-HasNoFeed (c ∷ name) h = (ground (arith, h.0.0), IsName-HasNoFeed name h.1)

digits-HasNoFeed : (ds : Bytes) → All (λ c. is_digit c ≡ true) ds → HasNoFeed ds
digits-HasNoFeed [] h = tt
digits-HasNoFeed (c ∷ ds) h = (ground (arith, h.0), digits-HasNoFeed ds h.1)

spaces-HasNoFeed : (pad : ℕ) → HasNoFeed (spaces pad)
spaces-HasNoFeed zero = tt
spaces-HasNoFeed (suc pad) = (refl, spaces-HasNoFeed pad)

entry_text-HasNoFeed : (e : Entry) → IsName e.name → HasNoFeed (entry_text e)
entry_text-HasNoFeed e h =
    let P = λ (c : ℕ). (c == 10) ≡ false in
    All-append P e.name _ (IsName-HasNoFeed e.name h) (
      refl,
      All-append P (spaces e.pad) _ (spaces-HasNoFeed e.pad) (
          All-append P (show e.value) (codes " kB")
            (digits-HasNoFeed (show e.value) (show-Digits e.value)) (refl, (refl, (refl, tt)))),
    )

texts_fit :
    (entries : List Entry)
    → All IsEntry entries
    → All (λ t. HasNoFeed t × (length t + 1 < 320)) (texts entries)
texts_fit [] h = tt
texts_fit (e ∷ entries) h = ((entry_text-HasNoFeed e h.0.0, h.0.2), texts_fit entries h.1)

-- From a file of any entries "Name: 120 kB", in any order and with any others among them, the eight
-- numbers are those of the last entry of exactly that name, and 0 where no entry has it.
pub read_meminfo-joined :
    (entries : List Entry)
    → All IsEntry entries
    → read_meminfo (joined (texts entries)) ≡ last_values entries no_meminfo
unfolding read_meminfo
read_meminfo-joined entries h =
    ap (λ l. meminfo_lines l no_meminfo)
      (fgets_lines-joined 320 (texts entries) (texts_fit entries h))
    ∙ meminfo_lines-fed entries no_meminfo h
