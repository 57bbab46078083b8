-- ===== src/Session/Delivery.antt =====
-- Sending over the active connection.
use cuddly_train.Base.{
  ℕ, ◌≡◌, ◌∙◌, Bool, true, false, List, Option, some, none, arith, Bool-cases, inl, inr,
}
use cuddly_train.Counters.{Counters}
use cuddly_train.Wire.{LineView, MessageClass, no_active_transport, TeardownReason}
use cuddly_train.Platform.{Clock, Network}
use cuddly_train.Writer.{Writer, Sending}
use cuddly_train.Session.{Session, is_active, took, apply_request, session_active_now}
use cuddly_train.Session.Driver.{send_active_line}
use cuddly_train.Session.Sender.{IsSender}
use cuddly_train.Session.Invariant.{IsSound, request_teardown-IsSound}

module _ {W : Type 0} (clock : Clock W) (network : Network W) (port : ℕ)
    (hook : Option (W → Bool × W)) (build_schema : W → Option (List ℕ) × W)
    (send : LineView → MessageClass → Writer × Counters × W → Sending W) (law : IsSender send) where
  requested-IsSound :
      (t : Option TeardownReason) (s : Session)
      → IsSound s
      → is_active s.state ≡ true
      → IsSound (apply_request t s)
  requested-IsSound none s v a = v
  requested-IsSound (some r) s v a = (request_teardown-IsSound r s v (ground (arith, a))).0

  written-IsSound :
      (s : Session) (wr : Writer) (c : Counters)
      → IsSound s
      → wr.transport ≡ s.writer.transport
      → IsSound (record s { writer = wr; counters = c })
  written-IsSound s wr c v e = record {
    set_up = v.set_up;
    framer_valid = v.framer_valid;
    bound = e ∙ v.bound;
    in_session = v.in_session;
    pending = v.pending;
    at_rest = v.at_rest;
    replacement = v.replacement;
  }

  send_active_line-idle :
      (line : LineView) (m : MessageClass) (s : Session) (w : W)
      → is_active s.state ≡ false
      → send_active_line clock network port hook build_schema send line m (s, w)
        ≡ (no_active_transport, s, w)
  unfolding send_active_line session_active_now
  send_active_line-idle line m s w a = ground (arith, a)

  send_active_line-active :
      (line : LineView) (m : MessageClass) (s : Session) (w : W)
      → IsSound s
      → is_active s.state ≡ true
      → let out = send line m (s.writer, s.counters, w) in
        send_active_line clock network port hook build_schema send line m (s, w)
        ≡ (out.result, took out s, out.world)
  unfolding send_active_line session_active_now
  send_active_line-active line m s w v a = ground (arith, a, v.in_session, v.pending)

  -- For a writer that is a sender, a send keeps the invariant of a sound session: a teardown that the writer requests closes the session. Without an
  -- active session nothing is sent and nothing changes.
  pub send_active_line-IsSound :
      (line : LineView) (m : MessageClass) (s : Session) (w : W)
      → IsSound s
      → IsSound (send_active_line clock network port hook build_schema send line m (s, w)).1
        × (is_active s.state ≡ false
            → send_active_line clock network port hook build_schema send line m (s, w)
              ≡ (no_active_transport, s, w))
  unfolding took
  send_active_line-IsSound line m s w v =
      let out = send line m (s.writer, s.counters, w) in
      (
        elim (Bool-cases (is_active s.state)) [
          | inl a ↦ rw (send_active_line-active line m s w v a) (
              requested-IsSound out.teardown _
                (written-IsSound s out.writer out.counters v
                  (law.keeps_transport line m s.writer s.counters w))
                a)
          | inr a ↦ rw (send_active_line-idle line m s w a) v
        ],
        send_active_line-idle line m s w,
      )
