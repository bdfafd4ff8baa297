-- ===== src/Socket/Receive/Hangs.antt =====
-- A length that wraps in the loop of `Socket::receive` of src/Socket.cpp.
use istatserverlinux.Prelude.{
  ℕ, zero, suc, ◌+◌, ◌%◌, Bool, true, false, ◌++◌, some, ◌≡◌, refl, arith, ltb-false, length, take,
  take-full, drop-full,
}
use istatserverlinux.Prelude.Outcome.{Outcome, done, no_fuel}
use istatserverlinux.Text.{Bytes, find, find-append}
use istatserverlinux.Xml.{Libs}
use istatserverlinux.Socket.Frame.{
  message, next_message, framed_round, close_tag, is_framed_payload, size_mod,
}
use istatserverlinux.Socket.Request.{Peer}
use istatserverlinux.Socket.Receive.{drain, after_round}

module _ (libs : Libs) (header : Bytes) (position len : ℕ) where
  -- The header's length and the announced length add up to 0 in 64 bits: the buffer stays as it is.
  next_message-wraps :
      (payload : Bytes)
      → find close_tag header ≡ some position
      → position + 6 ≡ length header
      → is_framed_payload libs header ≡ some (len, false)
      → (position + 6 + len) % size_mod ≡ 0
      → next_message libs (header ++ payload) ≡ message (take len payload) (header ++ payload)
  unfolding next_message framed_round
  next_message-wraps payload e whole framed wraps =
      rw (find-append close_tag header payload position e, whole, take-full header payload, framed)
        (rw (← whole, wraps)
          (rw whole (
            rw (drop-full header payload, ltb-false (length (header ++ payload)) 0 (omega arith)))))

  -- Let a text end with its first end tag, read as the header of a payload that is not compressed,
  -- and announce a length that with its own makes 0 modulo 2 ^ 64. With it in front of the buffer,
  -- the loop comes to no end in any number of rounds, if the payload is answered each time.
  pub drain-wraps :
      (handler : Bytes → Peer → Outcome Peer) (payload : Bytes) (next : Peer → Peer)
      → find close_tag header ≡ some position
      → position + 6 ≡ length header
      → is_framed_payload libs header ≡ some (len, false)
      → (position + 6 + len) % size_mod ≡ 0
      → ((p : Peer) → handler (take len payload) p ≡ done (next p))
      → (fuel : ℕ) (seen : Bool) (p : Peer)
      → drain libs handler fuel seen (header ++ payload) p ≡ no_fuel
  unfolding drain
  drain-wraps handler payload next e whole framed wraps answers zero seen p = refl
  drain-wraps handler payload next e whole framed wraps answers (suc fuel) seen p =
      rw (next_message-wraps payload e whole framed wraps, after_round, answers p)
        (drain-wraps handler payload next e whole framed wraps answers fuel true (next p))
