-- ===== src/Socket/Receive/Ends.antt =====
-- The rounds of the loop of `Socket::receive` of src/Socket.cpp, and what it leaves in the buffer.
use istatserverlinux.Prelude.{
  ℕ, zero, suc, ◌<◌, Bool, true, false, some, ◌≡◌, refl, ap, ◌⊎◌, inl, inr, arith, length,
  length-drop,
}
use istatserverlinux.Prelude.Outcome.{
  Outcome, done, crash, no_fuel, >>=-eq-done, Ends, ends_done, Ends-bind, not-Ends,
}
use istatserverlinux.Text.{Bytes}
use istatserverlinux.Xml.{Libs}
use istatserverlinux.Socket.Frame.{Round, no_tag, partial, skip, message, next_message}
use istatserverlinux.Socket.Frame.Append.{Fits, Fits-drop, IsRest, Leaves, next_message-Leaves}
use istatserverlinux.Socket.Request.{Peer, parse}
use istatserverlinux.Socket.Receive.{
  Drained, drain, after_round, settle, finish_read, Input, read_input, receive,
}
use istatserverlinux.Conf.{Config}
use istatserverlinux.Stats.{Standard, Stats}
use istatserverlinux.Socket.Request.Finish.{parse-Ends}

-- No request, and no end of a request, stands in front of the buffer.
abbrev pub IsWaiting : Round → Type 0
IsWaiting no_tag = Unit {0}
IsWaiting partial = Unit {0}
IsWaiting (skip rest) = ⊥
IsWaiting (message text rest) = ⊥

module _ (libs : Libs) (handler : Bytes → Peer → Outcome Peer) where
  rest-Fits : (buf rest : Bytes) → IsRest buf rest → Fits libs buf → Fits libs rest
  rest-Fits buf rest r f = rw r.rest_is (Fits-drop libs buf r.taken f)

  rest_shorter : (buf rest : Bytes) → IsRest buf rest → length rest < length buf
  rest_shorter buf rest r =
      omega (arith, r.six, r.within, ap length r.rest_is, length-drop r.taken buf)

  after_round-Ends :
      ((text : Bytes) (p : Peer) → Ends (handler text p))
      → (k : Bytes → Peer → Outcome Drained) (buf : Bytes) (seen : Bool) (p : Peer) (r : Round)
      → Leaves buf r
      → ((rest : Bytes) (q : Peer) → IsRest buf rest → Ends (k rest q))
      → Ends (after_round handler k buf seen p r)
  unfolding after_round
  after_round-Ends each k buf seen p no_tag l on = ends_done _
  after_round-Ends each k buf seen p partial l on = ends_done _
  after_round-Ends each k buf seen p (skip rest) l on = on rest p l
  after_round-Ends each k buf seen p (message text rest) l on =
      Ends-bind (handler text p) (k rest) (each text p) (λ q. on rest q l)

  -- Fuel above the length of the buffer is enough, if each request is answered.
  pub drain-Ends :
      ((text : Bytes) (p : Peer) → Ends (handler text p))
      → (fuel : ℕ) (seen : Bool) (buf : Bytes) (p : Peer) → Fits libs buf
      → length buf < fuel
      → Ends (drain libs handler fuel seen buf p)
  unfolding drain
  drain-Ends each zero seen buf p fits h = absurd (omega arith)
  drain-Ends each (suc fuel) seen buf p fits h =
      after_round-Ends each (drain libs handler fuel true) buf seen p (next_message libs buf)
        (next_message-Leaves libs buf (fits 0))
        (λ rest q r.
          drain-Ends each fuel true rest q (rest-Fits buf rest r fits)
            (omega (arith, rest_shorter buf rest r)))

  after_round-IsWaiting :
      (k : Bytes → Peer → Outcome Drained) (buf : Bytes) (seen : Bool) (p : Peer) (d : Drained)
      (r : Round)
      → next_message libs buf ≡ r
      → ((rest : Bytes) (q : Peer) → k rest q ≡ done d → IsWaiting (next_message libs d.buf))
      → after_round handler k buf seen p r ≡ done d
      → IsWaiting (next_message libs d.buf)
  unfolding after_round
  after_round-IsWaiting k buf seen p d no_tag e on h =
      let same : buf ≡ d.buf = ground arith in rw (← same, e) tt
  after_round-IsWaiting k buf seen p d partial e on h =
      let same : buf ≡ d.buf = ground arith in rw (← same, e) tt
  after_round-IsWaiting k buf seen p d (skip rest) e on h = on rest p h
  after_round-IsWaiting k buf seen p d (message text rest) e on h =
      let (q, _, h') = >>=-eq-done (handler text p) (k rest) h in on rest q h'

  -- What is left in the buffer holds no whole request.
  pub drain-IsWaiting :
      (fuel : ℕ) (seen : Bool) (buf : Bytes) (p : Peer) (d : Drained)
      → drain libs handler fuel seen buf p ≡ done d
      → IsWaiting (next_message libs d.buf)
  unfolding drain
  drain-IsWaiting zero seen buf p d h = cc
  drain-IsWaiting (suc fuel) seen buf p d h =
      after_round-IsWaiting (drain libs handler fuel true) buf seen p d (next_message libs buf) refl
        (λ rest q. drain-IsWaiting fuel true rest q d) h

module _ (libs : Libs) (standard : Standard) (config : Config) (stats : Stats) where
  answer_drained :
      (now : ℕ) (len : ℕ) (r : Outcome Drained)
      → Ends r
      → ((d : Drained) → r ≡ done d → IsWaiting (next_message libs d.buf))
      → (finish_read now len r ≡ crash)
        ⊎ ((q : Peer) × (finish_read now len r ≡ done (len, q))
            × IsWaiting (next_message libs q.socket.readbuf))
  answer_drained now len (done d) e w = inr (settle now d, refl, w d refl)
  answer_drained now len crash e w = inl refl
  answer_drained now len no_fuel e w = absurd (not-Ends e)

  -- Where the bytes that have come hold no length that wraps, and there is more fuel than bytes,
  -- `receive` ends: it returns the number of bytes read, with no whole request left in the buffer,
  -- unless a request makes the server read a null pointer or past an array.
  pub receive_ends :
      (fuel now len : ℕ) (input : Input) (p : Peer) (buf : Bytes)
      → read_input input p ≡ done (some (buf, len))
      → Fits libs buf
      → length buf < fuel
      → (receive libs standard config stats fuel now input p ≡ crash)
        ⊎ ((q : Peer) × (receive libs standard config stats fuel now input p ≡ done (len, q))
            × IsWaiting (next_message libs q.socket.readbuf))
  unfolding receive
  receive_ends fuel now len input p buf read fits enough = rw read (
      answer_drained now len (drain libs (parse libs standard config stats) fuel false buf p)
        (drain-Ends libs (parse libs standard config stats) (parse-Ends libs standard config stats)
          fuel false buf p fits enough)
        (drain-IsWaiting libs (parse libs standard config stats) fuel false buf p))
