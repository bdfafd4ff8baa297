-- ===== src/Tests/Sockets.antt =====
-- Sending, the set of sockets and the main loop at concrete inputs.
use istatserverlinux.Prelude.{
  ℕ, ◌<◌, Bool, true, false, [], ◌∷◌, none, some, ◌≡◌, refl, inl, inr, arith, get_elem?,
  if◌then◌else◌, ◌==◌, ltb, ◌&&◌, Bool-cases,
}
use istatserverlinux.Prelude.Outcome.{done}
use istatserverlinux.Text.{Bytes, codes}
use istatserverlinux.Socket.{Socket}
use istatserverlinux.Socket.Send.{Write, wrote, want, Sent, send}
use istatserverlinux.Socket.Send.Whole.{IsHonest, IsSent, send-IsSent}
use istatserverlinux.Socketset.{SocketSet, erase_id, remove_socket, get_ready, get_status}
use istatserverlinux.Socketset.Valid.{has_id, IsValid, remove_socket-IsValid}
use istatserverlinux.Socketset.Ready.{IsSelect, get_ready-get_status}
use istatserverlinux.Main.{remove_idle}
use istatserverlinux.Main.Idle.{remove_idle_lem}
use istatserverlinux.Tests.Fixture.{socket_of}

-- The first call wants to be called again; then every call takes one byte.
abbrev byte_by_byte : ℕ → Bytes → Write
byte_by_byte call text = if call == 0 then want else wrote 1

byte_by_byte-IsHonest : IsHonest byte_by_byte 1
byte_by_byte-IsHonest = record {
  takes = λ call n text some_text short e. ground (arith, e, some_text);
  settles = λ call text some_text short late. ground (arith, late);
}

send-IsSent_example :
    (s : Sent) × (send byte_by_byte (λ text. none) 5 true (codes "abc") ≡ done s)
    × IsSent (codes "abc") s
send-IsSent_example =
    send-IsSent byte_by_byte (λ text. none) 1 5 (codes "abc") byte_by_byte-IsHonest (omega arith)

-- The connection with descriptor 5, which select has found ready.
abbrev connection : Socket
connection = record (socket_of []) { is_server = false }

abbrev one_socket : SocketSet
one_socket = record {
  connections = connection ∷ [];
  highest = 5;
  readyset = λ i. i == 5;
  socketset = λ i. if i == 5 then true else false;
}

one_socket-IsValid : IsValid one_socket
one_socket-IsValid = record {
  bounded = (omega arith, tt);
  small = (omega arith, tt);
  tracked = λ id. refl;
  distinct = (refl, tt);
}

remove_socket-IsValid_example :
    (t : SocketSet) × (remove_socket 77 one_socket 0 ≡ done t)
    × (t.connections ≡ erase_id 5 (connection ∷ []))
    × (has_id t.connections 5 ≡ false)
    × IsValid t
remove_socket-IsValid_example =
    remove_socket-IsValid 77 one_socket 0 connection one_socket-IsValid refl

-- Descriptor 5 is ready where it is watched and looked at.
abbrev select_five : ℕ → (ℕ → Bool) → ℕ × (ℕ → Bool)
select_five nfds watched = if watched 5 && ltb 5 nfds then (1, λ i. i == 5) else (0, λ i. false)

select_five-IsSelect : IsSelect select_five
select_five-IsSelect nfds watched counted = elim (Bool-cases (watched 5 && ltb 5 nfds)) [
  | inl e ↦ (5, ground (arith, e), ground (arith, e), rw e refl)
  | inr e ↦ absurd (ground (arith, e, counted))
]

counted : 0 < (get_status select_five one_socket).0
unfolding get_status
counted = omega arith

get_ready-get_status_example :
    (socket : Socket) × (get_elem?
        (connection ∷ [])
        (get_ready (get_status select_five one_socket).1)
      ≡ some socket)
    × ((get_status select_five one_socket).1.readyset socket.id ≡ true)
get_ready-get_status_example =
    get_ready-get_status select_five one_socket select_five-IsSelect one_socket-IsValid counted

remove_idle_lem_example :
    (t : SocketSet) × (remove_idle 2 77 120_000_001 one_socket ≡ done t)
    × (t.connections ≡ [])
    × IsValid t
remove_idle_lem_example =
    remove_idle_lem 2 77 120_000_001 one_socket one_socket-IsValid (omega arith)
