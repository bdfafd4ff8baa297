-- ===== src/Socket/Receive/Chunks.antt =====
-- The loop of `Socket::receive` of src/Socket.cpp over bytes that come in two parts.
use Prim.Native.Nat.add
use native.Mathlib.Nat.{add_comm}
use istatserverlinux.Prelude.{
  ℕ, zero, suc, ◌+◌, Bool, true, ◌++◌, ◌≡◌, ◌≢◌, refl, sym, ◌∙◌, subst, drop-append,
}
use istatserverlinux.Prelude.Outcome.{Outcome, done, crash, no_fuel, ◌>>=◌, >>=-eq-done}
use istatserverlinux.Text.{Bytes}
use istatserverlinux.Xml.{Libs}
use istatserverlinux.Socket.Frame.{Round, no_tag, partial, skip, message, next_message}
use istatserverlinux.Socket.Frame.Append.{
  Fits, Fits-append, Fits-drop, next_message-append, next_message-tag, later, IsRest, Leaves,
  next_message-Leaves,
}
use istatserverlinux.Socket.Request.{Peer}
use istatserverlinux.Socket.Receive.{Drained, drained, drain, after_round}

done-injective : {d e : Drained} → done d ≡ done e → d ≡ e
done-injective h = cc

module _ (handler : Bytes → Peer → Outcome Peer) where
  bind_agree :
      (m : Outcome Peer) (k k' : Peer → Outcome Drained)
      → ((p : Peer) → k p ≢ no_fuel → k' p ≡ k p)
      → (m >>= k) ≢ no_fuel
      → (m >>= k') ≡ (m >>= k)
  bind_agree (done p) k k' agree h = agree p h
  bind_agree crash k k' agree h = refl
  bind_agree no_fuel k k' agree h = refl

  after_round-agree :
      (k k' : Bytes → Peer → Outcome Drained) (buf : Bytes) (seen : Bool) (p : Peer) (r : Round)
      → ((rest : Bytes) (q : Peer) → k rest q ≢ no_fuel → k' rest q ≡ k rest q)
      → after_round handler k buf seen p r ≢ no_fuel
      → after_round handler k' buf seen p r ≡ after_round handler k buf seen p r
  unfolding after_round
  after_round-agree k k' buf seen p no_tag agree h = refl
  after_round-agree k k' buf seen p partial agree h = refl
  after_round-agree k k' buf seen p (skip rest) agree h = agree rest p h
  after_round-agree k k' buf seen p (message text rest) agree h =
      bind_agree (handler text p) (k rest) (k' rest) (agree rest) h

  -- Once an end tag is there, it does not matter whether one was seen before.
  after_round-seen :
      (k : Bytes → Peer → Outcome Drained) (buf : Bytes) (seen : Bool) (p : Peer) (r : Round)
      → r ≢ no_tag
      → after_round handler k buf seen p r ≡ after_round handler k buf true p r
  unfolding after_round
  after_round-seen k buf seen p no_tag h = absurd (h refl)
  after_round-seen k buf seen p partial h = refl
  after_round-seen k buf seen p (skip rest) h = refl
  after_round-seen k buf seen p (message text rest) h = refl

module _ (libs : Libs) (handler : Bytes → Peer → Outcome Peer) where
  abbrev go : ℕ → Bool → Bytes → Peer → Outcome Drained
  go = drain libs handler

  -- More fuel does not change a result.
  pub drain_mono :
      (fuel more : ℕ) (seen : Bool) (buf : Bytes) (p : Peer)
      → go fuel seen buf p ≢ no_fuel
      → go (fuel + more) seen buf p ≡ go fuel seen buf p
  unfolding drain
  drain_mono zero more seen buf p h = absurd (h refl)
  drain_mono (suc fuel) more seen buf p h = rw (add.suc fuel more) (
      after_round-agree handler (go fuel true) (go (fuel + more) true) buf seen p
        (next_message libs buf) (λ rest q. drain_mono fuel more true rest q) h)

  drain_seen :
      (fuel : ℕ) (seen : Bool) (buf : Bytes) (p : Peer)
      → next_message libs buf ≢ no_tag
      → go fuel seen buf p ≡ go fuel true buf p
  unfolding drain
  drain_seen zero seen buf p h = refl
  drain_seen (suc fuel) seen buf p h =
      after_round-seen handler (go fuel true) buf seen p (next_message libs buf) h

  IsRest-Fits :
      (a rest : Bytes) (b : Bytes) → IsRest a rest → Fits libs (a ++ b) → Fits libs (rest ++ b)
  IsRest-Fits a rest b r f =
      rw (r.rest_is, ← drop-append r.taken a b r.within) (Fits-drop libs (a ++ b) r.taken f)

  -- A round that answers a request, or drops one, does the same with more bytes behind it.
  answered :
      (k k' : Bytes → Peer → Outcome Drained) (a b : Bytes) (seen : Bool) (p : Peer) (d : Drained)
      (end : Outcome Drained) (r : Round)
      → Leaves a r
      → r ≢ no_tag
      → r ≢ partial
      → ((rest : Bytes) (q : Peer) → IsRest a rest → k rest q ≡ done d → k' (rest ++ b) q ≡ end)
      → after_round handler k a seen p r ≡ done d
      → after_round handler k' (a ++ b) seen p (later r b) ≡ end
  unfolding after_round
  answered k k' a b seen p d end no_tag l t w on h = absurd (t refl)
  answered k k' a b seen p d end partial l t w on h = absurd (w refl)
  answered k k' a b seen p d end (skip rest) l t w on h = on rest p l h
  answered k k' a b seen p d end (message text rest) l t w on h =
      let (q, e, h') = >>=-eq-done (handler text p) (k rest) h in rw e (on rest q l h')

  -- What answering goes on from.
  abbrev resume : ℕ → Bytes → Drained → Outcome Drained
  resume fuel b d = go fuel d.seen (d.buf ++ b) d.peer

  -- A first part with no request in it changes nothing but the mark that an end tag was seen.
  unanswered :
      (fuel more : ℕ) (seen marked : Bool) (a b : Bytes) (p : Peer) (d : Drained)
      → go fuel seen (a ++ b) p ≡ go fuel marked (a ++ b) p
      → drained a marked p ≡ done d
      → resume fuel b d ≢ no_fuel
      → go (more + fuel) seen (a ++ b) p ≡ resume fuel b d
  unanswered fuel more seen marked a b p d same h =
      subst
        (λ (e : Drained).
          resume fuel b e ≢ no_fuel → go (more + fuel) seen (a ++ b) p ≡ resume fuel b e)
        (done-injective h)
        (λ w.
          rw (add_comm more fuel)
            (drain_mono fuel more seen (a ++ b) p (λ z. w (sym same ∙ z)) ∙ same))

  -- Where no length in the bytes of both parts wraps, the loop over the first part ends normally,
  -- and the loop over what it leaves with the second part behind it ends: the loop over both parts
  -- at once ends, and with the same outcome.
  pub drain-append :
      (first fuel : ℕ) (seen : Bool) (a b : Bytes) (p : Peer) (d : Drained)
      → Fits libs (a ++ b)
      → drain libs handler first seen a p ≡ done d
      → drain libs handler fuel d.seen (d.buf ++ b) d.peer ≢ no_fuel
      → drain libs handler (first + fuel) seen (a ++ b) p
        ≡ drain libs handler fuel d.seen (d.buf ++ b) d.peer
  unfolding drain
  drain-append zero fuel seen a b p d fits h ends = cc
  drain-append (suc f) fuel seen a b p d fits h ends =
      let on = λ (rest : Bytes) (q : Peer) (r : IsRest a rest) (g : go f true rest q ≡ done d).
        drain-append f fuel true rest b q d (IsRest-Fits a rest b r fits) g ends in
      by_round (next_message libs a) refl on
    where
      fits_a : Fits libs a
      fits_a = Fits-append libs a b fits

      whole :
          (r : Round)
          → next_message libs a ≡ r
          → r ≢ no_tag
          → r ≢ partial
          → ((rest : Bytes) (q : Peer)
              → IsRest a rest
              → go f true rest q ≡ done d
              → go (f + fuel) true (rest ++ b) q ≡ resume fuel b d)
          → go (suc f + fuel) seen (a ++ b) p ≡ resume fuel b d
      whole r e t w on =
          rw
            (
              add.suc f fuel,
              next_message-append libs a b (fits_a 0) (λ z. t (sym e ∙ z)) (λ z. w (sym e ∙ z)),
              e,
            )
            (answered (go f true) (go (f + fuel) true) a b seen p d (resume fuel b d) r
              (rw e at (next_message-Leaves libs a (fits_a 0))) t w on (rw e at h))

      by_round :
          (r : Round)
          → next_message libs a ≡ r
          → ((rest : Bytes) (q : Peer)
              → IsRest a rest
              → go f true rest q ≡ done d
              → go (f + fuel) true (rest ++ b) q ≡ resume fuel b d)
          → go (suc f + fuel) seen (a ++ b) p ≡ resume fuel b d
      by_round no_tag e on =
          unanswered fuel (suc f) seen seen a b p d refl (rw (e, after_round) at h) ends
      by_round partial e on =
          unanswered fuel (suc f) seen true a b p d
            (drain_seen fuel seen (a ++ b) p (next_message-tag libs a b (λ z. cc)))
            (rw (e, after_round) at h) ends
      by_round (skip rest) e on = whole (skip rest) e (λ z. cc) (λ z. cc) on
      by_round (message text rest) e on = whole (message text rest) e (λ z. cc) (λ z. cc) on
