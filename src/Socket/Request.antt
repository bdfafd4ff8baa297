-- ===== src/Socket/Request.antt =====
-- `Socket::parse` of src/Socket.cpp: the answer to one request.
pub mod Auth
pub mod Finish
use istatserverlinux.Prelude.{
  ℕ, suc, Bool, true, false, not, ◌||◌, List, [], ◌∷◌, ◌++◌, Option, none, some, ltb, ◌==◌,
  if◌then◌else◌, length,
}
use istatserverlinux.Prelude.Int.{ℤ, pos, eqb_ℤ}
use istatserverlinux.Prelude.Outcome.{Outcome, done, deref, ◌>>=◌}
use istatserverlinux.Text.{Bytes, codes, str_eq}
use istatserverlinux.Text.Number.{atoi, show, show_ℤ}
use istatserverlinux.Xml.{Node, Nodes, nil, cons, get_prop, has_name, children, Libs}
use istatserverlinux.Conf.{Config, get}
use istatserverlinux.Clientset.{ClientSet, authenticate, is_authenticated}
use istatserverlinux.Stats.{Standard, Stats}
use istatserverlinux.Responses.Reply.{
  isr_create_header, isr_accept_code, isr_reject_code, isr_accept_connection, isr_serverinfo,
  isr_uptime_data,
}
use istatserverlinux.Responses.Series.{isr_cpu_data, isr_memory_data, isr_loadavg_data}
use istatserverlinux.Responses.Multiple.{isr_multiple_data}
use istatserverlinux.Socket.Frame.{compress_string}
use istatserverlinux.Socket.{Socket}

-- What a request may change: the connection, the set of clients, and the texts handed to `send`.
pub record Peer : Type 0 where
  pub socket : Socket
  pub clients : ClientSet
  pub sent : List Bytes

abbrev pub send_text : Bytes → Peer → Peer
send_text text p = record p { sent = p.sent ++ text ∷ [] }

abbrev pub server_code : Config → Bytes
server_code config = get config (codes "server_code") (codes "00000")

-- Whether the passcode is anything but a number of five digits.
unfoldable pub is_text_code : Bytes → Bool
is_text_code code = not (str_eq code (show_ℤ (atoi code))) || not (length code == 5)

-- The `auth` of the server's greeting: 0 for a known client, 2 for a passcode that is text.
unfoldable pub auth_mode : Config → ClientSet → Bytes → ℕ
auth_mode config clients uuid =
    if is_authenticated clients uuid then 0 else if is_text_code (server_code config) then 2 else 1

-- code == 100
unfoldable pub on_connect : Node → Peer → Outcome Peer
on_connect cur p = do
  protocol ← deref (get_prop cur (codes "protocol"))
  let socket = record (p.socket) { protocol = atoi protocol }
  done (send_text isr_accept_connection (record p { socket = socket }))

-- code == 101
unfoldable pub on_hello : Config → Stats → Node → Peer → Outcome Peer
on_hello config stats cur p = do
  uuid ← deref (get_prop cur (codes "uuid"))
  name ← deref (get_prop cur (codes "name"))
  let socket = record (p.socket) { uuid = uuid; name = name }
  let auth = auth_mode config p.clients uuid
  let reply = isr_serverinfo socket.session auth socket.server_uuid stats.history_enabled
  done (send_text reply (record p { socket = socket }))

-- code == 102
unfoldable pub on_code : Config → Node → Peer → Outcome Peer
on_code config cur p = do
  code ← deref (get_prop cur (codes "code"))
  done (
      if str_eq code (server_code config)
      then send_text isr_accept_code (record p { clients = authenticate p.clients p.socket.uuid })
      else send_text isr_reject_code p)

-- The types that `isr_multiple_data` answers.
abbrev pub is_multiple : Bytes → Bool
is_multiple type =
    str_eq type (codes "network")
    || str_eq type (codes "diskactivity")
    || str_eq type (codes "processes")
    || str_eq type (codes "disks")
    || str_eq type (codes "diskinfo")
    || str_eq type (codes "sensors")
    || str_eq type (codes "battery")
    || str_eq type (codes "smart")
    || str_eq type (codes "gpu")

module _ (standard : Standard) (stats : Stats) where
  -- The chain of strcmp over the type of a child.
  unfoldable pub child_data : Node → Option Bytes → Outcome Bytes
  child_data child none = done []
  child_data child (some type) =
      if str_eq type (codes "cpu")
      then isr_cpu_data standard child stats
      else if str_eq type (codes "memory")
      then isr_memory_data standard child stats
      else if str_eq type (codes "load")
      then isr_loadavg_data standard child stats
      else if str_eq type (codes "uptime")
      then done (isr_uptime_data stats.uptime)
      else if is_multiple type
      then isr_multiple_data standard type stats child
      else done []

  -- The loop over the children; a child with no type is passed over.
  unfoldable pub children_data : Nodes → Outcome Bytes
  unfolding child_data
  children_data nil = done []
  children_data (cons child siblings) = do
    first ← child_data child (get_prop child (codes "type"))
    rest ← children_data siblings
    done (first ++ rest)

abbrev pub payload_open : Bytes
payload_open = isr_create_header ++ codes "<isr type=\"104\">"

-- The frame header, and the payload, compressed where zlib makes anything of it.
abbrev pub frame_header : ℕ → Bytes → Bytes
frame_header length tag =
    isr_create_header
    ++ (codes "<isr type=\"105\" length=\""
        ++ (show length ++ (codes "\"" ++ (tag ++ codes "></isr>"))))

unfoldable pub framed_texts : Libs → Bytes → List Bytes
framed_texts libs text =
    let compressed = compress_string libs text in
    if length compressed == 0
    then frame_header (length text) [] ∷ text ∷ []
    else frame_header (length compressed) (codes " c=\"1\"") ∷ compressed ∷ []

-- code == 103
unfoldable pub on_data : Libs → Standard → Stats → Node → Peer → Outcome Peer
unfolding children_data
on_data libs standard stats cur p = do
  body ←
      if is_authenticated p.clients p.socket.uuid
      then children_data standard stats (children cur)
      else done []
  done (record p { sent = p.sent ++ framed_texts libs (payload_open ++ (body ++ codes "</isr>")) })

-- The chain of tests on the code.
unfoldable pub on_request : Libs → Standard → Config → Stats → ℤ → Node → Peer → Outcome Peer
unfolding on_connect on_hello on_code on_data
on_request libs standard config stats code cur p =
    if eqb_ℤ code (pos 100)
    then on_connect cur p
    else if eqb_ℤ code (pos 101)
    then on_hello config stats cur p
    else if eqb_ℤ code (pos 102)
    then on_code config cur p
    else if eqb_ℤ code (pos 103)
    then on_data libs standard stats cur p
    else done p

-- A root with no `type` makes atoi read a null pointer.
unfoldable pub parse_root : Libs → Standard → Config → Stats → Option Node → Peer → Outcome Peer
unfolding on_request
parse_root libs standard config stats none p = done p
parse_root libs standard config stats (some cur) p =
    if has_name cur (codes "isr")
    then (do
      type ← deref (get_prop cur (codes "type"))
      on_request libs standard config stats (atoi type) cur p)
    else done p

unfoldable pub parse : Libs → Standard → Config → Stats → Bytes → Peer → Outcome Peer
unfolding parse_root
parse libs standard config stats text p =
    parse_root libs standard config stats (libs.read_memory text) p
