-- ===== src/Socket.antt =====
-- src/Socket.cpp: one connection of a client, or the listening socket. The children model what it
-- receives, how it cuts that into requests, how it answers a request, and how it sends.
pub mod Frame
pub mod Request
pub mod Receive
pub mod Send
use istatserverlinux.Prelude.{ℕ, Bool, false, []}
use istatserverlinux.Prelude.Int.{ℤ}
use istatserverlinux.Text.{Bytes}

pub record Socket : Type 0 where
  pub id : ℕ
  pub listener : Bool
  pub port : ℕ
  pub address : Bytes
  pub server_uuid : Bytes
  pub uuid : Bytes
  pub name : Bytes
  pub session : ℕ
  pub protocol : ℤ
  pub ssl_enabled : Bool
  pub is_server : Bool
  pub last_request : ℕ
  pub readbuf : Bytes
  pub secure : Bool
  pub debug_logging : Bool

-- `accept`, where the call of the system succeeds: `id`, `address` and `port` are the peer's.
-- Neither the constructor nor `accept` sets `isServer` and `_protocol`: they hold what the memory
-- held, here `stray`.
unfoldable pub accept : Socket → ℕ → Bytes → ℕ → ℕ → Bool × ℤ → Socket
accept listening id address port now stray = record {
  id = id;
  listener = false;
  port = port;
  address = address;
  server_uuid = listening.server_uuid;
  uuid = [];
  name = [];
  session = listening.session;
  protocol = stray.1;
  ssl_enabled = listening.ssl_enabled;
  is_server = stray.0;
  last_request = now;
  readbuf = [];
  secure = false;
  debug_logging = false;
}
