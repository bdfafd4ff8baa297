-- ===== src/Socketset.antt =====
-- src/Socketset.cpp: the listening socket and the connections, with the sets of descriptors that
-- select reads and writes. A reference to a connection is its
-- slot in the vector.
pub mod Valid
pub mod Ready
use istatserverlinux.Prelude.{
  ℕ, zero, suc, ◌+◌, Bool, true, false, not, ◌&&◌, List, [], ◌∷◌, ◌++◌, Option, none, some, ltb,
  leb, ◌==◌, if◌then◌else◌, length, get_elem?,
}
use istatserverlinux.Prelude.Outcome.{Outcome, done, crash, no_fuel, deref, ◌>>=◌}
use istatserverlinux.Text.{shift}
use istatserverlinux.Socket.{Socket}

-- A fd_set is the function that FD_ISSET reads.
pub record SocketSet : Type 0 where
  pub connections : List Socket
  pub highest : ℕ
  pub readyset : ℕ → Bool
  pub socketset : ℕ → Bool

-- The constructor; `readyset` is not set.
abbrev pub new_socketset : (ℕ → Bool) → SocketSet
new_socketset stray = record {
  connections = [];
  highest = 0;
  readyset = stray;
  socketset = λ i. false;
}

-- FD_SETSIZE. FD_SET writes past the set from there on.
abbrev pub fd_setsize : ℕ
fd_setsize = 1024

-- FD_SET and FD_CLR.
abbrev pub fd_put : ℕ → Bool → (ℕ → Bool) → ℕ → Bool
fd_put id bit set i = if i == id then bit else set i

-- What += leaves where FD_SET stays inside of the set.
abbrev pub added : SocketSet → Socket → SocketSet
added s socket = record s {
  connections = s.connections ++ socket ∷ [];
  highest = if ltb s.highest socket.id then socket.id else s.highest;
  socketset = fd_put socket.id true s.socketset;
}

-- operator +=
unfoldable pub add_socket : SocketSet → Socket → Outcome SocketSet
add_socket s socket = if leb fd_setsize socket.id then crash else done (added s socket)

-- connections.erase of the first connection with the descriptor
unfoldable pub erase_id : ℕ → List Socket → List Socket
erase_id id [] = []
erase_id id (c ∷ cs) = if c.id == id then cs else c ∷ erase_id id cs

-- highest over the connections
unfoldable pub highest_of : ℕ → List Socket → ℕ
highest_of highest [] = highest
highest_of highest (c ∷ cs) = highest_of (if ltb highest c.id then c.id else highest) cs

-- What the reference to the slot reads once the vector has moved up: the connection behind, or,
-- behind the last one, what the memory holds.
abbrev pub moved_id : ℕ → Option Socket → ℕ
moved_id stray none = stray
moved_id stray (some c) = c.id

-- What -= leaves, for the descriptor and for the connections without it.
abbrev pub removed : ℕ → SocketSet → ℕ → ℕ → List Socket → SocketSet
removed stray s slot id connections = record s {
  connections = connections;
  highest =
      if moved_id stray (get_elem? connections slot) == s.highest
      then highest_of 0 connections
      else s.highest;
  socketset = fd_put id false s.socketset;
}

-- operator -= on a reference into the vector
unfoldable pub remove_socket : ℕ → SocketSet → ℕ → Outcome SocketSet
unfolding erase_id highest_of
remove_socket stray s slot = do
  socket ← deref (get_elem? s.connections slot)
  done (removed stray s slot socket.id (erase_id socket.id s.connections))

-- operator ==
abbrev pub is_ready : SocketSet → ℕ → Bool
is_ready s id = s.readyset id

unfoldable pub ready_slot : (ℕ → Bool) → List Socket → Option ℕ
ready_slot ready [] = none
ready_slot ready (c ∷ cs) = if ready c.id then some 0 else shift (ready_slot ready cs)

-- connections.front() where none is found
abbrev pub or_front : Option ℕ → ℕ
or_front none = 0
or_front (some slot) = slot

unfoldable pub get_ready : SocketSet → ℕ
unfolding ready_slot
get_ready s = or_front (ready_slot s.readyset s.connections)

unfoldable pub get_socket : SocketSet → ℕ → ℕ
unfolding ready_slot
get_socket s id = or_front (ready_slot (λ i. i == id) s.connections)

-- select is a parameter: the number of descriptors ready and the set it leaves, for the number of
-- descriptors to look at and the set of those watched.
unfoldable pub get_status : (ℕ → (ℕ → Bool) → ℕ × (ℕ → Bool)) → SocketSet → ℕ × SocketSet
get_status select s =
    let r = select (s.highest + 1) s.socketset in (r.0, record s { readyset = r.1 })
