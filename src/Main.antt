-- ===== src/Main.antt =====
-- The loop of src/main.cpp over the set of sockets. The time is in microseconds, and one pass reads
-- the clock once.
pub mod Idle
use istatserverlinux.Prelude.{
  ℕ, zero, suc, ◌+◌, Bool, true, false, not, ◌&&◌, List, [], ◌∷◌, Option, none, some, ltb, ◌==◌,
  if◌then◌else◌, get_elem?,
}
use istatserverlinux.Prelude.Outcome.{Outcome, done, crash, no_fuel, deref, ◌>>=◌}
use istatserverlinux.Clientset.{ClientSet}
use istatserverlinux.Conf.{Config}
use istatserverlinux.Stats.{Standard, Stats}
use istatserverlinux.Xml.{Libs}
use istatserverlinux.Socket.{Socket}
use istatserverlinux.Socket.Request.{Peer}
use istatserverlinux.Socket.Receive.{Input, receive}
use istatserverlinux.Text.{Bytes, shift}
use istatserverlinux.Socketset.{SocketSet, add_socket, remove_socket, get_ready, is_ready}

-- A client that has sent no request for two minutes.
unfoldable pub is_idle : ℕ → Socket → Bool
is_idle now c = not c.is_server && ltb (c.last_request + 120_000_000) now

pub idle_slot : ℕ → List Socket → Option ℕ
idle_slot now [] = none
idle_slot now (c ∷ cs) = if is_idle now c then some 0 else shift (idle_slot now cs)

-- while(finished == false): remove the first idle connection, and begin again from the front.
unfoldable pub remove_idle : ℕ → ℕ → ℕ → SocketSet → Outcome SocketSet
unfolding idle_slot
remove_idle zero stray now s = no_fuel
remove_idle (suc fuel) stray now s = elim (idle_slot now s.connections) [
  | none ↦ done s
  | some slot ↦ remove_socket stray s slot >>= remove_idle fuel stray now
]

-- The connection in the slot, written through the reference.
unfoldable put_slot : List Socket → ℕ → Socket → List Socket
put_slot [] slot c = []
put_slot (d ∷ cs) zero c = c ∷ cs
put_slot (d ∷ cs) (suc slot) c = d ∷ put_slot cs slot c

module _ (libs : Libs) (standard : Standard) (config : Config) (stats : Stats) where
  -- receive on the active socket, at the time now with what its calls will read; it is removed where
  -- nothing was read. The last value is what was sent to it.
  abbrev read_active :
      ℕ → ℕ → ℕ → Input → SocketSet → ClientSet → ℕ → Outcome (SocketSet × ClientSet × List Bytes)
  read_active stray fuel now input s clients slot = do
    active ← deref (get_elem? s.connections slot)
    let p : Peer = record { socket = active; clients = clients; sent = [] }
    r ← receive libs standard config stats fuel now input p
    let (len, q) = r
    let t : SocketSet = record s { connections = put_slot s.connections slot q.socket }
    u ← (if len == 0 then remove_socket stray t slot else done t)
    done (u, q.clients, q.sent)

  -- The body under `sockets.get_status(1) > 0`: a new connection where the listener is ready, and
  -- else a request of the socket that is.
  unfoldable serve :
      ℕ
      → ℕ
      → ℕ
      → Input
      → Socket
      → Socket
      → SocketSet
      → ClientSet
      → Outcome (SocketSet × ClientSet × List Bytes)
  serve stray fuel now input listener accepted s clients =
      if is_ready s listener.id
      then (do t ← add_socket s accepted; done (t, clients, []))
      else read_active stray fuel now input s clients (get_ready s)
