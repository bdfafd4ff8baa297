-- ===== src/Socket/Send.antt =====
-- `Socket::send` of src/Socket.cpp. SSL_write and send are parameters: what they make of a call.
pub mod Whole
use istatserverlinux.Prelude.{
  ℕ, zero, suc, Bool, true, false, List, [], ◌∷◌, ◌++◌, Option, none, some, ltb, ◌==◌,
  if◌then◌else◌, length, take, drop,
}
use istatserverlinux.Prelude.Int.{ℤ, pos, negsuc}
use istatserverlinux.Prelude.Outcome.{Outcome, done, crash, no_fuel}
use istatserverlinux.Text.{Bytes}

-- One call of SSL_write: the number of bytes taken, SSL_ERROR_WANT_READ or _WRITE, or any other
-- error, the end of the connection among them.
pub data Write : Type 0 where
  wrote : ℕ → Write
  want : Write
  gone : Write

-- The bytes that SSL_write took, and the value returned.
pub record Sent : Type 0 where
  pub wire : Bytes
  pub code : ℤ

-- At most 8192 bytes go into one call.
abbrev pub chunk : Bytes → Bytes
chunk text = if ltb 8192 (length text) then take 8192 text else text

-- substr(r) throws where r lies behind the end.
unfoldable pub after_write :
    (Bytes → Bytes → ℤ → Outcome Sent) → Bytes → Bytes → ℤ → Write → Outcome Sent
after_write next text wire r (wrote n) =
    if ltb (length text) n then crash else next (drop n text) (wire ++ take n (chunk text)) (pos n)
after_write next text wire r want = next text wire (negsuc 0)
after_write next text wire r gone = done (record { wire = wire; code = pos 0 })

module _ (ssl_write : ℕ → Bytes → Write) where
  -- The loop over the data: `call` counts the calls of SSL_write.
  unfoldable pub send_loop : ℕ → ℕ → Bytes → Bytes → ℤ → Outcome Sent
  unfolding after_write
  send_loop zero call text wire r = no_fuel
  send_loop (suc fuel) call text wire r =
      if length text == 0
      then done (record { wire = wire; code = r })
      else after_write (send_loop fuel (suc call)) text wire r (ssl_write call (chunk text))

-- One call of send on a connection that is not secure; `none` for -1.
abbrev pub after_send : Bytes → Option ℕ → Sent
after_send text none = record { wire = []; code = pos 0 }
after_send text (some n) = record { wire = take n text; code = pos n }

unfoldable pub send : (ℕ → Bytes → Write) → (Bytes → Option ℕ) → ℕ → Bool → Bytes → Outcome Sent
unfolding send_loop
send ssl_write plain_send fuel secure text =
    if secure
    then send_loop ssl_write fuel 0 text [] (pos 0)
    else done (after_send text (plain_send text))
