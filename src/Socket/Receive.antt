-- ===== src/Socket/Receive.antt =====
-- `Socket::receive` of src/Socket.cpp: read what has come, and answer every request that is whole.
pub mod Chunks
pub mod Ends
pub mod Hangs
use istatserverlinux.Prelude.{
  ℕ, zero, suc, ◌+◌, Bool, true, false, List, [], ◌∷◌, ◌++◌, Option, none, some, if◌then◌else◌,
  length,
}
use istatserverlinux.Prelude.Outcome.{Outcome, done, crash, no_fuel, ◌>>=◌}
use istatserverlinux.Text.{Bytes}
use istatserverlinux.Xml.{Libs}
use istatserverlinux.Conf.{Config}
use istatserverlinux.Stats.{Standard, Stats}
use istatserverlinux.Socket.{Socket}
use istatserverlinux.Socket.Frame.{Round, no_tag, partial, skip, message, next_message}
use istatserverlinux.Socket.Request.{Peer, parse}

-- One call of SSL_read or recv: bytes, nothing yet (SSL_ERROR_WANT_READ, EWOULDBLOCK), or the end.
pub data Read : Type 0 where
  bytes : Bytes → Read
  want : Read
  closed : Read

-- What the calls will return: each SSL_read with whether SSL_pending is positive behind it, and each
-- recv.
pub record Input : Type 0 where
  pub ssl : List (Read × Bool)
  pub plain : List Read

-- The buffer and the number of bytes read; `none` where `receive` returns 0 at once.
unfoldable pub ssl_loop : List (Read × Bool) → Bytes → ℕ → Outcome (Option (Bytes × ℕ))
ssl_loop [] buf len = no_fuel
ssl_loop ((bytes b, pending) ∷ rest) buf len =
    let more = ssl_loop rest (buf ++ b) (len + length b) in
    if pending then more else done (some (buf ++ b, len + length b))
ssl_loop ((want, pending) ∷ rest) buf len =
    let more = ssl_loop rest buf len in if pending then more else done (some (buf, len))
ssl_loop ((closed, pending) ∷ rest) buf len = done none

unfoldable pub plain_loop : List Read → Bytes → ℕ → Outcome (Option (Bytes × ℕ))
plain_loop [] buf len = no_fuel
plain_loop (bytes b ∷ rest) buf len = plain_loop rest (buf ++ b) (len + length b)
plain_loop (want ∷ rest) buf len = done (some (buf, len))
plain_loop (closed ∷ rest) buf len = done none

-- The buffer that is left, whether an end tag was seen (then `lastRequest` is set), and the peer.
pub record Drained : Type 0 where
  pub buf : Bytes
  pub seen : Bool
  pub peer : Peer

abbrev pub drained : Bytes → Bool → Peer → Outcome Drained
drained buf seen p = done (record { buf = buf; seen = seen; peer = p })

-- One round, with what goes on behind it.
unfoldable pub after_round :
    (Bytes → Peer → Outcome Peer)
    → (Bytes → Peer → Outcome Drained)
    → Bytes
    → Bool
    → Peer
    → Round
    → Outcome Drained
after_round handler next buf seen p no_tag = drained buf seen p
after_round handler next buf seen p partial = drained buf true p
after_round handler next buf seen p (skip rest) = next rest p
after_round handler next buf seen p (message text rest) = handler text p >>= next rest

module _ (libs : Libs) (handler : Bytes → Peer → Outcome Peer) where
  -- The loop over the buffer. `parse` neither reads nor writes the buffer and `lastRequest`.
  unfoldable pub drain : ℕ → Bool → Bytes → Peer → Outcome Drained
  unfolding after_round
  drain zero seen buf p = no_fuel
  drain (suc fuel) seen buf p =
      after_round handler (drain fuel true) buf seen p (next_message libs buf)

-- What `receive` leaves behind.
abbrev settle : ℕ → Drained → Peer
settle now d = record (d.peer) {
  socket = record (d.peer.socket) {
    readbuf = d.buf;
    last_request = if d.seen then now else d.peer.socket.last_request;
  };
}

abbrev pub finish_read : ℕ → ℕ → Outcome Drained → Outcome (ℕ × Peer)
finish_read now len r = do d ← r; done (len, settle now d)

abbrev answer :
    Libs → (Bytes → Peer → Outcome Peer) → ℕ → ℕ → Peer → Option (Bytes × ℕ) → Outcome (ℕ × Peer)
answer libs handler fuel now p none = done (0, p)
answer libs handler fuel now p (some (buf, len)) =
    finish_read now len (drain libs handler fuel false buf p)

-- The first loop: SSL_read on a secure connection, recv on any other.
unfoldable pub read_input : Input → Peer → Outcome (Option (Bytes × ℕ))
unfolding ssl_loop plain_loop
read_input input p =
    if p.socket.secure
    then ssl_loop input.ssl p.socket.readbuf 0
    else plain_loop input.plain p.socket.readbuf 0

-- The number of bytes read, 0 at the end of the connection.
unfoldable pub receive :
    Libs → Standard → Config → Stats → ℕ → ℕ → Input → Peer → Outcome (ℕ × Peer)
receive libs standard config stats fuel now input p = do
  read ← read_input input p
  answer libs (parse libs standard config stats) fuel now p read
