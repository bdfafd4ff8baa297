-- ===== src/Tests/Fixture.antt =====
-- The libraries, the configuration and the connections of the tests.
use istatserverlinux.Prelude.{
  ℕ, ◌+◌, ◌≤◌, ◌<◌, Bool, true, false, List, [], ◌∷◌, Option, none, some, ◌≡◌, refl, arith,
  if◌then◌else◌, length, take, drop, length-drop,
}
use istatserverlinux.Prelude.Int.{pos}
use istatserverlinux.Text.{Bytes, codes, str_eq, find_bound}
use istatserverlinux.Text.Number.{atoi, strtoul, show_ℤ}
use istatserverlinux.Xml.{Node, element, nil, get_prop, has_name, Libs}
use istatserverlinux.Conf.{Config}
use istatserverlinux.Clientset.{ClientSet, Disk}
use istatserverlinux.Tests.Sorting.{sort}
use istatserverlinux.Stats.{Standard, Series, Collector, Stats}
use istatserverlinux.Socket.{Socket}
use istatserverlinux.Socket.Frame.{is_framed_payload, framed_root, close_tag}
use istatserverlinux.Socket.Frame.Append.{Fits}
use istatserverlinux.Socket.Request.{Peer}

abbrev pub isr : List (Bytes × Bytes) → Node
isr props = element (codes "isr") props nil

abbrev pub code_text : Bytes
code_text = codes "<isr type=\"102\" code=\"12345\"></isr>"

abbrev pub code_root : Node
code_root = isr ((codes "type", codes "102") ∷ (codes "code", codes "12345") ∷ [])

abbrev pub data_text : Bytes
data_text = codes "<isr type=\"103\"></isr>"

abbrev pub data_root : Node
data_root = isr ((codes "type", codes "103") ∷ [])

abbrev pub hello_text : Bytes
hello_text = codes "<isr type=\"101\" uuid=\"u\" name=\"n\"></isr>"

abbrev pub hello_root : Node
hello_root =
    isr ((codes "type", codes "101") ∷ (codes "uuid", codes "u") ∷ (codes "name", codes "n") ∷ [])

abbrev pub bare_text : Bytes
bare_text = codes "<isr></isr>"

-- A header that announces three bytes.
abbrev pub short_header : Bytes
short_header = codes "<isr type=\"105\" length=\"3\"></isr>"

abbrev pub short_root : Node
short_root = isr ((codes "type", codes "105") ∷ (codes "length", codes "3") ∷ [])

-- A header of 52 bytes that announces 2 ^ 64 - 52 bytes.
abbrev pub wrapping_header : Bytes
wrapping_header = codes "<isr type=\"105\" length=\"18446744073709551564\"></isr>"

abbrev pub wrapping_root : Node
wrapping_root =
    isr ((codes "type", codes "105") ∷ (codes "length", codes "18446744073709551564") ∷ [])

-- An XML reader that knows the texts above, with no compression.
abbrev pub reads_as : List (Bytes × Node) → Bytes → Option Node
reads_as [] text = none
reads_as ((t, root) ∷ table) text = if str_eq text t then some root else reads_as table text

abbrev pub libs_of : List (Bytes × Node) → Libs
libs_of table = record { read_memory = reads_as table; deflate = λ t. none; inflate = λ t. none }

abbrev pub libs : Libs
libs = libs_of (
    (code_text, code_root)
    ∷ (data_text, data_root)
    ∷ (hello_text, hello_root)
    ∷ (bare_text, isr [])
    ∷ (wrapping_header, wrapping_root)
    ∷ [])

abbrev pub short_libs : Libs
short_libs = libs_of ((short_header, short_root) ∷ [])

abbrev pub standard : Standard
standard = record { show_double = show_ℤ; read_double = λ t. pos 0; sort = sort }

abbrev pub config : Config
config = record {
  properties = record { var = codes "server_code"; val = codes "12345"; array = [] } ∷ [];
}

abbrev pub no_series : {V : Type 0} → Series V
no_series = record { session = 0; sample_ids = []; samples = [] }

abbrev pub no_items : {A : Type 0} → Collector A
no_items = record { session = 0; sample_ids = []; items = [] }

-- No samples, and the given number of processes.
abbrev pub stats_of : ℕ → Stats
stats_of count = record {
  history_enabled = true;
  cpu = no_series;
  load = no_series;
  memory = no_series;
  network = no_items;
  activity = no_items;
  disks = no_items;
  sensors = no_items;
  battery = no_items;
  processes = [];
  thread_count = 0;
  process_count = count;
  uptime = count;
  health = [];
  now = 0;
}

abbrev pub disk : Disk
disk = record { clients_dat = none; writable = true }

abbrev pub clients_of : List Bytes → ClientSet
clients_of names = record { authenticated_clients = names; cache_dir = codes "/c/"; disk = disk }

-- A plain connection of a client that calls itself `u`.
abbrev pub socket_of : Bytes → Socket
socket_of buf = record {
  id = 5;
  listener = false;
  port = 5109;
  address = codes "::1";
  server_uuid = codes "s";
  uuid = codes "u";
  name = codes "n";
  session = 7;
  protocol = pos 3;
  ssl_enabled = true;
  is_server = true;
  last_request = 0;
  readbuf = buf;
  secure = false;
  debug_logging = false;
}

abbrev pub peer_of : List Bytes → Bytes → Peer
peer_of names buf = record { socket = socket_of buf; clients = clients_of names; sent = [] }

short_root_framing : framed_root (some short_root) ≡ some (3, false)
unfolding framed_root has_name get_prop str_eq atoi strtoul
short_root_framing = refl

known_framing :
    (known : Bool) (n : ℕ) (c : Bool)
    → framed_root (if known then some short_root else none) ≡ some (n, c)
    → n ≤ 3
unfolding framed_root
known_framing true n c h = ground (arith, short_root_framing)
known_framing false n c h = cc

short_framing :
    (text : Bytes) (n : ℕ) (c : Bool) → is_framed_payload short_libs text ≡ some (n, c) → n ≤ 3
unfolding is_framed_payload
short_framing text n c h = known_framing (str_eq text short_header) n c h

-- With `short_libs`, no length in a short buffer wraps.
pub Fits-short : (buf : Bytes) → length buf < 1000 → Fits short_libs buf
Fits-short buf h n position len c e f = omega (
  arith,
  find_bound close_tag (drop n buf) position e,
  short_framing (take (position + 6) (drop n buf)) len c f,
  length-drop n buf,
)
