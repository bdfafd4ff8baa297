-- ===== src/Tests/Receiving.antt =====
-- The receiving loop on concrete bytes.
use istatserverlinux.Prelude.{true, false, [], ◌∷◌, ◌++◌, some, ◌≡◌, refl, ◌⊎◌, arith, length}
use istatserverlinux.Prelude.Outcome.{Outcome, done, crash, no_fuel}
use istatserverlinux.Text.{Bytes, codes, find, is_prefix, str_eq}
use istatserverlinux.Text.Number.{atoi, strtoul}
use istatserverlinux.Xml.{has_name, get_prop}
use istatserverlinux.Socket.Frame.{
  next_message, is_framed_payload, framed_root, framed_round, close_tag,
}
use istatserverlinux.Socket.Request.{Peer, send_text, parse, parse_root}
use istatserverlinux.Socket.Receive.{
  bytes, want, Input, Drained, drain, after_round, read_input, plain_loop, receive,
}
use istatserverlinux.Socket.Receive.Chunks.{drain-append}
use istatserverlinux.Socket.Receive.Ends.{IsWaiting, receive_ends}
use istatserverlinux.Socket.Receive.Hangs.{drain-wraps}
use istatserverlinux.Tests.Fixture.{
  libs, short_libs, standard, config, stats_of, peer_of, short_header, wrapping_header, Fits-short,
}

-- The answer repeats the request.
abbrev echo : Bytes → Peer → Outcome Peer
echo text p = done (send_text text p)

abbrev two_thirds : Bytes
two_thirds = short_header ++ codes "ab"

abbrev waiting : Drained
waiting = record { buf = two_thirds; seen = true; peer = peer_of [] [] }

abbrev answered : Drained
answered = record { buf = []; seen = true; peer = send_text (codes "abc") (peer_of [] []) }

waits : drain short_libs echo 5 false two_thirds (peer_of [] []) ≡ done waiting
unfolding drain after_round next_message is_framed_payload framed_root framed_round find is_prefix
    str_eq has_name get_prop atoi strtoul
waits = refl

answers : drain short_libs echo 5 true (two_thirds ++ codes "c") (peer_of [] []) ≡ done answered
unfolding drain after_round next_message is_framed_payload framed_root framed_round find is_prefix
    str_eq has_name get_prop atoi strtoul
answers = refl

drain-append_example :
    drain short_libs echo 10 false (two_thirds ++ codes "c") (peer_of [] [])
    ≡ drain short_libs echo 5 true (two_thirds ++ codes "c") (peer_of [] [])
drain-append_example =
    drain-append short_libs echo 5 5 false two_thirds (codes "c") (peer_of [] []) waiting
      (Fits-short (two_thirds ++ codes "c") (omega arith)) waits (λ e. cc (answers, e))

abbrev one_read : Input
one_read = record { ssl = []; plain = bytes two_thirds ∷ want ∷ [] }

one_read-read_input :
    read_input one_read (peer_of [] []) ≡ done (some (two_thirds, length two_thirds))
unfolding read_input plain_loop
one_read-read_input = refl

receive_ends_example :
    (receive short_libs standard config (stats_of 0) 100 9 one_read (peer_of [] []) ≡ crash)
    ⊎ ((q : Peer) × (receive short_libs standard config (stats_of 0) 100 9 one_read (peer_of [] [])
          ≡ done (length two_thirds, q))
        × IsWaiting (next_message short_libs q.socket.readbuf))
receive_ends_example =
    receive_ends short_libs standard config (stats_of 0) 100 9 (length two_thirds) one_read
      (peer_of [] []) two_thirds one_read-read_input (Fits-short two_thirds (omega arith))
      (omega arith)

wrapping_is_whole : find close_tag wrapping_header ≡ some 46
unfolding find is_prefix
wrapping_is_whole = refl

wrapping_framing : is_framed_payload libs wrapping_header ≡ some (18446744073709551564, false)
unfolding is_framed_payload framed_root str_eq has_name get_prop atoi strtoul
wrapping_framing = refl

empty_text : (p : Peer) → parse libs standard config (stats_of 0) [] p ≡ done p
unfolding parse parse_root str_eq
empty_text p = refl

drain-wraps_example :
    drain libs (parse libs standard config (stats_of 0)) 1000 false wrapping_header (peer_of [] [])
    ≡ no_fuel
drain-wraps_example =
    drain-wraps libs wrapping_header 46 18446744073709551564
      (parse libs standard config (stats_of 0)) [] (λ p. p) wrapping_is_whole refl wrapping_framing
      refl empty_text 1000 false (peer_of [] [])
