-- ===== src/Clientset.antt =====
-- src/Clientset.cpp: the clients that have shown the passcode, and their file clients.dat.
pub mod Lines
pub mod Membership
pub mod Restart
use istatserverlinux.Prelude.{
  ℕ, zero, suc, Bool, true, false, List, [], ◌∷◌, ◌++◌, Option, none, some, ltb, leb, ◌==◌,
  if◌then◌else◌, length,
}
use istatserverlinux.Prelude.Int.{ℤ, pos, eqb_ℤ}
use istatserverlinux.Text.{Bytes, codes, str_eq}
use istatserverlinux.Text.Number.{to_int}
use istatserverlinux.Text.Explode.{explode}

-- The file clients.dat of the cache directory, and whether it can be opened for writing.
pub record Disk : Type 0 where
  pub clients_dat : Option Bytes
  pub writable : Bool

pub record ClientSet : Type 0 where
  pub authenticated_clients : List Bytes
  pub cache_dir : Bytes
  pub disk : Disk

-- out << uuid << endl, for each client
unfoldable pub cache_text : List Bytes → Bytes
cache_text [] = []
cache_text (uuid ∷ clients) = uuid ++ (b'\n' ∷ cache_text clients)

unfoldable pub save_cache : ClientSet → ClientSet
unfolding cache_text
save_cache c =
    if length c.cache_dir == 0
    then c
    else if c.disk.writable
    then record c {
      disk = record { clients_dat = some (cache_text c.authenticated_clients); writable = true };
    }
    else c

unfoldable pub authenticate : ClientSet → Bytes → ClientSet
unfolding save_cache
authenticate c uuid =
    save_cache (record c { authenticated_clients = c.authenticated_clients ++ uuid ∷ [] })

unfoldable pub search_clients : List Bytes → Bytes → Bool
search_clients [] uuid = false
search_clients (c ∷ clients) uuid = if str_eq c uuid then true else search_clients clients uuid

unfoldable pub is_authenticated : ClientSet → Bytes → Bool
unfolding search_clients
is_authenticated c uuid = search_clients c.authenticated_clients uuid

-- unlink, where the file exists; `removable` is whether it succeeds.
pub clear_cache : Bool → ClientSet → ClientSet
clear_cache removable c =
    if length c.cache_dir == 0
    then c
    else if removable
    then record c { disk = record { clients_dat = none; writable = c.disk.writable } }
    else c

-- while (getline(cache, line)): the last line needs no newline.
unfoldable pub lines : Bytes → Bytes → List Bytes
lines [] [] = []
lines (c ∷ line) [] = (c ∷ line) ∷ []
lines line (c ∷ s) =
    let next = lines [] s in
    let on = lines (line ++ c ∷ []) s in if c == b'\n' then line ∷ next else on

-- The client that one line names: the whole line, or the second of three fields where the third is 1.
unfoldable pub fields_client : ℤ → Bytes → List Bytes → Option Bytes
fields_client stray line [] = some line
fields_client stray line (a ∷ []) = some line
fields_client stray line (a ∷ b ∷ []) = none
fields_client stray line (a ∷ b ∷ c ∷ rest) =
    if eqb_ℤ (to_int stray c) (pos 1) then some b else none

unfoldable pub line_client : ℤ → Bytes → Option Bytes
unfolding fields_client
line_client stray line =
    if length line == 0 then none else fields_client stray line (explode line (codes ":"))

abbrev pub push_client : List Bytes → Option Bytes → List Bytes
push_client clients none = clients
push_client clients (some uuid) = clients ++ uuid ∷ []

-- `stray` is what the variable of `to_int` holds, by the lines that are left.
unfoldable pub read_lines : (List Bytes → ℤ) → List Bytes → List Bytes → List Bytes
unfolding line_client
read_lines stray clients [] = clients
read_lines stray clients (line ∷ rest) =
    read_lines stray (push_client clients (line_client (stray rest) line)) rest

abbrev pub read_file : (List Bytes → ℤ) → List Bytes → Option Bytes → List Bytes
read_file stray clients none = clients
read_file stray clients (some content) = read_lines stray clients (lines [] content)

unfoldable pub read_cache : (List Bytes → ℤ) → ClientSet → Bytes → ClientSet
unfolding read_lines lines
read_cache stray c dir = record c {
  authenticated_clients = read_file stray c.authenticated_clients c.disk.clients_dat;
  cache_dir = dir;
}
