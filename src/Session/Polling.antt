-- ===== src/Session/Polling.antt =====
-- What a round of polling leaves, and that it ends.
use cuddly_train.Base.{
  ℕ, ◌<◌, ◌≡◌, ◌∙◌, refl, ap, Bool, true, false, not, ◌&&◌, List, Option, some, none, arith,
  Bool-cases, inl, inr, if◌then◌else◌,
}
use cuddly_train.Counters.{Counters}
use cuddly_train.Wire.{LineView, MessageClass, ConnectionHandle, is_valid_connection_handle}
use cuddly_train.Platform.{Clock, Network}
use cuddly_train.Writer.{Writer, Sending}
use cuddly_train.Session.{
  Session, SessionState, listening, network_starting, boot_safe, session_active, session_closing,
  session_connected, is_connected, is_active, request_teardown, transition_to,
}
use cuddly_train.Session.Driver.{
  pump_network_starting, listen_again, pump_listening, restore_listener, accept_checked,
  accepted_listening, accept_replacement, detect_active_loss, poll_session, poll_state, poll,
  apply_pending_teardown,
}
use cuddly_train.Session.Sender.{IsSender}
use cuddly_train.Session.Invariant.{IsSound}
use cuddly_train.Session.Teardown.{promote-IsSettled, apply_pending_teardown-IsSettled, Ends}
use cuddly_train.Session.Reading.{IsFinite, loss-IsSound, read_available-IsSound}

module _ {W : Type 0} (clock : Clock W) (network : Network W) (port : ℕ)
    (hook : Option (W → Bool × W)) (build_schema : W → Option (List ℕ) × W)
    (send : LineView → MessageClass → Writer × Counters × W → Sending W) where
  accept_replacement-IsSound :
      (s : Session) (w : W)
      → IsSound s
      → is_active s.state ≡ true
      → IsSound (accept_replacement clock network port hook build_schema send (s, w)).0
  unfolding accept_replacement request_teardown transition_to
  accept_replacement-IsSound s w v a = ground (
    arith, a, v.set_up, v.framer_valid, v.bound, v.in_session, v.pending, v.at_rest, v.replacement,
  )

  starting-IsSound :
      (s : Session) (w : W)
      → IsSound s
      → s.state ≡ network_starting
      → IsSound (pump_network_starting clock network port hook build_schema send (s, w)).0
  unfolding pump_network_starting listen_again transition_to
  starting-IsSound s w v e = ground (
    arith, e, v.set_up, v.framer_valid, v.bound, v.in_session, v.pending, v.at_rest, v.replacement,
  )

  poll_session-IsSound :
      (unread : ConnectionHandle → W → ℕ)
      → IsFinite network unread
      → (fuel : ℕ) → ((h : ConnectionHandle) (w : W) → unread h w < fuel)
      → (s : Session) (w : W) → IsSound s
      → is_active s.state ≡ true
      → (out : Session × W) × (poll_session clock network port hook build_schema send fuel (s, w)
          ≡ some out)
        × IsSound out.0
  unfolding poll_session
  poll_session-IsSound unread law fuel room s w v a =
      let (waiting, w₁) = network.has_pending_connection w in
      let (s', w₂) = detect_active_loss clock network port hook build_schema send (s, w₁) in
      let v' = loss-IsSound clock network port hook build_schema send s w₁ v (ground (arith, a)) in
      elim (Bool-cases waiting) [
        | inl p ↦ rw (p, poll_session) (_, refl, accept_replacement-IsSound s w₁ v a)
        | inr p ↦
            rw (p, poll_session)
              (elim (Bool-cases (is_active s'.state && not s'.teardown_pending)) [
                | inl b ↦ rw b (
                    read_available-IsSound clock network port hook build_schema send unread law fuel
                      s' w₂ (room _ _) v' (ground (arith, b)))
                | inr b ↦ rw b ((s', w₂), refl, v')
              ])
      ]

module _ {W : Type 0} (clock : Clock W) (network : Network W) (port : ℕ)
    (hook : Option (W → Bool × W)) (build_schema : W → Option (List ℕ) × W)
    (send : LineView → MessageClass → Writer × Counters × W → Sending W) (law : IsSender send) where
  apply-Ends :
      Ends clock network port hook build_schema send law
        (apply_pending_teardown clock network port hook build_schema send)
  apply-Ends s w v =
      apply_pending_teardown-IsSettled clock network port hook build_schema send law s w v.0

  accept_checked-valid :
      (w : W) (h : ConnectionHandle)
      → (accept_checked clock network port hook build_schema send w).0 ≡ some h
      → is_valid_connection_handle h ≡ true
  unfolding accept_checked
  accept_checked-valid w h e = ground (arith, e)

  accepted-IsSound :
      (handle : Option ConnectionHandle) (s : Session) (w : W)
      → ((h : ConnectionHandle) → handle ≡ some h → is_valid_connection_handle h ≡ true)
      → IsSound s
      → s.state ≡ listening
      → IsSound (accepted_listening clock network port hook build_schema send handle (s, w)).0
  accepted-IsSound none s w q v e =
      ground (
        arith, v.set_up, v.framer_valid, v.bound, v.in_session, v.pending, v.at_rest, v.replacement,
      )
  accepted-IsSound (some h) s w q v e =
      (promote-IsSettled clock network port hook build_schema send law _ h _ w apply-Ends
        (ground (
          arith, v.set_up, v.framer_valid, v.bound, v.in_session, v.pending, v.at_rest,
          v.replacement,
        ))
        e (q h refl)).0

  listening-IsSound :
      (s : Session) (w : W)
      → IsSound s
      → s.state ≡ listening
      → IsSound (pump_listening clock network port hook build_schema send (s, w)).0
  unfolding pump_listening
  listening-IsSound s w v e =
      let (waiting, w₁) =
        network.has_pending_connection
          (restore_listener clock network port hook build_schema send w) in
      let (handle, w₂) = accept_checked clock network port hook build_schema send w₁ in
      elim (Bool-cases waiting) [
        | inl p ↦
            rw (p, pump_listening) (accepted-IsSound handle s w₂ (accept_checked-valid w₁) v e)
        | inr p ↦ rw (p, pump_listening) v
      ]

  state-IsSound :
      (unread : ConnectionHandle → W → ℕ)
      → IsFinite network unread
      → (fuel : ℕ) → ((h : ConnectionHandle) (w : W) → unread h w < fuel)
      → (state : SessionState) (s : Session) (w : W) → IsSound s
      → s.state ≡ state
      → (out : Session × W) × (poll_state clock network port hook build_schema send fuel state
            (s, w)
          ≡ some out)
        × IsSound out.0
  state-IsSound unread finite fuel room network_starting s w v e =
      (_, refl, starting-IsSound clock network port hook build_schema send s w v e)
  state-IsSound unread finite fuel room listening s w v e = (_, refl, listening-IsSound s w v e)
  state-IsSound unread finite fuel room session_connected s w v e =
      absurd (connected-rests s e v.at_rest)
    where
      connected-rests :
          (s : Session) → s.state ≡ session_connected → is_connected s.state ≡ false → ⊥
      connected-rests s e f = ground (arith, e, f)
  state-IsSound unread finite fuel room session_active s w v e =
      poll_session-IsSound clock network port hook build_schema send unread finite fuel room s w v
        (ap is_active e)
  state-IsSound unread finite fuel room boot_safe s w v e = (_, refl, v)
  state-IsSound unread finite fuel room session_closing s w v e = (_, refl, v)

  -- For a writer that is a sender, and a sound session, a round of polling always ends, with fuel for the bytes that the network can hold, and keeps the
  -- invariant in every state and whatever the network answers: connections that come, are replaced
  -- or are lost, and schemas that cannot be built or sent included.
  pub poll-IsSound :
      (unread : ConnectionHandle → W → ℕ)
      → IsFinite network unread
      → (fuel : ℕ) → ((h : ConnectionHandle) (w : W) → unread h w < fuel)
      → (s : Session) (w : W) → IsSound s
      → (out : Session × W) × (poll clock network port hook build_schema send fuel (s, w)
          ≡ some out)
        × IsSound out.0
  unfolding poll
  poll-IsSound unread finite fuel room s w v =
      let (out, e, o) =
        state-IsSound unread finite fuel room s.state s (network.progress w) v refl in
      (
        out,
        ap
              (λ b.
                if not b
                then some (s, w)
                else poll_state clock network port hook build_schema send fuel s.state
                    (s, network.progress w))
              v.set_up
            ∙ e,
        o,
      )
