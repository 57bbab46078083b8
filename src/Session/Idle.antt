-- ===== src/Session/Idle.antt =====
-- A teardown that is requested while there is no session, and what each operation of
-- src/core/SessionDriver.h keeps of a session that may be so.
use cuddly_train.Base.{
  ℕ, ◌<◌, ◌≡◌, ◌⊎◌, inl, inr, ◌∙◌, sym, Bool, true, false, List, Option, some, none, arith,
  Bool-cases,
}
use cuddly_train.Counters.{Counters}
use cuddly_train.Wire.{
  LineView, MessageClass, TeardownReason, ConnectionHandle, is_valid_connection_handle,
}
use cuddly_train.Platform.{Clock, Network}
use cuddly_train.Framer.Invariant.{release-IsValid, close-IsValid}
use cuddly_train.Framer.{release_line}
use cuddly_train.Writer.{Writer, Sending, clear_transport}
use cuddly_train.Session.{Session, request_teardown, transition_to, session_active_now}
use cuddly_train.Session.Driver.{
  tear_down, promote_replacement, apply_from, apply_pending_teardown, send_active_line, next_line,
  release_active_line,
}
use cuddly_train.Session.Sender.{IsSender}
use cuddly_train.Session.Invariant.{IsSound, has_session, request_teardown-IsSound}
use cuddly_train.Session.Delivery.{send_active_line-IsSound}
use cuddly_train.Session.Reading.{IsFinite, next_line-IsSound}
use cuddly_train.Session.Teardown.{IsSettled, apply_pending_teardown-IsSettled}

-- A teardown is pending, but for that the session is sound, and there is no connection.
pub record IsIdle (s : Session) : Type 0 where
  pub sound : IsSound (record s { teardown_pending = false })
  pub requested : s.teardown_pending ≡ true
  pub no_session : has_session s.state ≡ false

abbrev pub IsUsable : Session → Type 0
IsUsable s = IsSound s ⊎ IsIdle s

counted-IsSound : (c : Counters) (s : Session) → IsSound s → IsSound (record s { counters = c })
counted-IsSound c s v = record {
  set_up = v.set_up;
  framer_valid = v.framer_valid;
  bound = v.bound;
  in_session = v.in_session;
  pending = v.pending;
  at_rest = v.at_rest;
  replacement = v.replacement;
}

pub counted-IsUsable :
    (c : Counters) (s : Session) → IsUsable s → IsUsable (record s { counters = c })
counted-IsUsable c s (inl v) = inl (counted-IsSound c s v)
counted-IsUsable c s (inr v) = inr (record {
  sound = counted-IsSound c (record s { teardown_pending = false }) v.sound;
  requested = v.requested;
  no_session = v.no_session;
})

outside-IsIdle :
    (reason : TeardownReason) (s : Session)
    → IsSound s
    → has_session s.state ≡ false
    → IsIdle (request_teardown reason s)
unfolding request_teardown transition_to
outside-IsIdle reason s v h =
    ground (
      arith, h, v.set_up, v.framer_valid, v.bound, v.in_session, v.pending, v.at_rest,
      v.replacement,
    )

requested-twice :
    (reason : TeardownReason) (s : Session)
    → s.teardown_pending ≡ true
    → request_teardown reason s ≡ s
unfolding request_teardown
requested-twice reason s h = ground (arith, h)

pub requested-IsUsable :
    (reason : TeardownReason) (s : Session) → IsUsable s → IsUsable (request_teardown reason s)
requested-IsUsable reason s (inl v) = elim (Bool-cases (has_session s.state)) [
  | inl h ↦ inl (request_teardown-IsSound reason s v h).0
  | inr h ↦ inr (outside-IsIdle reason s v h)
]
requested-IsUsable reason s (inr v) = rw (requested-twice reason s v.requested) (inr v)

-- With no teardown pending, a session that is usable is settled.
pub IsUsable-quiet : (s : Session) → IsUsable s → s.teardown_pending ≡ false → IsSettled s
IsUsable-quiet s (inl v) q = (v, sym v.pending ∙ q)
IsUsable-quiet s (inr v) q = absurd (ground (arith, v.requested, q))

module _ {W : Type 0} (clock : Clock W) (network : Network W) (port : ℕ)
    (hook : Option (W → Bool × W)) (build_schema : W → Option (List ℕ) × W)
    (send : LineView → MessageClass → Writer × Counters × W → Sending W) where
  release-set_up :
      (s : Session)
      → s.configured ≡ true
      → release_active_line clock network port hook build_schema send s
        ≡ record s { framer = release_line s.framer }
  unfolding release_active_line
  release-set_up s h = ground (arith, h)

  released-IsSound :
      (s : Session) → IsSound s → IsSound (record s { framer = release_line s.framer })
  released-IsSound s v = record {
    set_up = v.set_up;
    framer_valid = release-IsValid s.framer v.framer_valid;
    bound = v.bound;
    in_session = v.in_session;
    pending = v.pending;
    at_rest = v.at_rest;
    replacement = v.replacement;
  }

  pub released-IsUsable :
      (s : Session)
      → IsUsable s
      → IsUsable (release_active_line clock network port hook build_schema send s)
  released-IsUsable s (inl v) = rw (release-set_up s v.set_up) (inl (released-IsSound s v))
  released-IsUsable s (inr v) = rw (release-set_up s v.sound.set_up) (
      inr (record {
        sound = released-IsSound (record s { teardown_pending = false }) v.sound;
        requested = v.requested;
        no_session = v.no_session;
      }))

  -- With no session, or with a teardown that is pending, nothing is sent and no line is given.
  idle-send :
      (line : LineView) (m : MessageClass) (s : Session) (w : W)
      → s.teardown_pending ≡ true
      → (send_active_line clock network port hook build_schema send line m (s, w)).1 ≡ s
  unfolding send_active_line session_active_now
  idle-send line m s w h = ground (arith, h)

  idle-line :
      (fuel : ℕ) (s : Session) (w : W)
      → s.teardown_pending ≡ true
      → next_line clock network port hook build_schema send fuel (s, w) ≡ some (none, s, w)
  unfolding next_line session_active_now
  idle-line fuel s w h = ground (arith, h)

  tear_down-idle :
      (s : Session) (w : W)
      → IsIdle s
      → let (s', _) = tear_down clock network port hook build_schema send (s, w) in
        IsSettled s' × (is_valid_connection_handle s'.replacement_handle ≡ false)
  unfolding tear_down transition_to clear_transport
  tear_down-idle s w v = ground (
    arith,
    v.sound.set_up,
    close-IsValid s.framer v.sound.framer_valid,
    v.sound.in_session,
    v.no_session,
    v.sound.replacement,
    v.sound.at_rest,
    v.sound.pending,
  )

  apply_from-idle :
      (s : Session) (w : W)
      → IsIdle s
      → apply_from clock network port hook build_schema send 2 (s, w)
        ≡ promote_replacement clock network port hook build_schema send
            (apply_from clock network port hook build_schema send 1)
            (tear_down clock network port hook build_schema send (s, w))
  unfolding apply_from
  apply_from-idle s w v = ground (arith, v.sound.set_up, v.requested)

  promote-none :
      (s : Session) (w : W)
      → is_valid_connection_handle s.replacement_handle ≡ false
      → promote_replacement clock network port hook build_schema send
          (apply_from clock network port hook build_schema send 1)
          (s, w)
        ≡ (s, w)
  unfolding promote_replacement
  promote-none s w h = ground (arith, h)

  -- A teardown that was requested outside a session leaves a settled one.
  applied-idle :
      (s : Session) (w : W)
      → IsIdle s
      → IsSettled (apply_pending_teardown clock network port hook build_schema send (s, w)).0
  unfolding apply_pending_teardown
  applied-idle s w v =
      let (s', w') = tear_down clock network port hook build_schema send (s, w) in
      let (settled, alone) = tear_down-idle s w v in
      rw (apply_from-idle s w v, promote-none s' w' alone) settled

  -- On a network that adds no bytes while it is read, the request for a line ends, and keeps a session
  -- that is usable.
  pub lined-IsUsable :
      (unread : ConnectionHandle → W → ℕ)
      → IsFinite network unread
      → (fuel : ℕ) → ((h : ConnectionHandle) (w : W) → unread h w < fuel)
      → (s : Session) (w : W) → IsUsable s
      → (out : LineView × Session × W) × (next_line clock network port hook build_schema send fuel
            (s, w)
          ≡ some out)
        × IsUsable out.1
  lined-IsUsable unread finite fuel room s w (inl v) =
      let (out, e, v') =
        next_line-IsSound clock network port hook build_schema send unread finite fuel s w
          (room _ _) v in
      (out, e, inl v')
  lined-IsUsable unread finite fuel room s w (inr v) =
      ((none, s, w), idle-line fuel s w v.requested, inr v)

  module _ (law : IsSender send) where
    pub applied-IsUsable :
        (s : Session) (w : W)
        → IsUsable s
        → IsSettled (apply_pending_teardown clock network port hook build_schema send (s, w)).0
    applied-IsUsable s w (inl v) =
        apply_pending_teardown-IsSettled clock network port hook build_schema send law s w v
    applied-IsUsable s w (inr v) = applied-idle s w v

    pub sent-IsUsable :
        (line : LineView) (m : MessageClass) (s : Session) (w : W)
        → IsUsable s
        → IsUsable (send_active_line clock network port hook build_schema send line m (s, w)).1
    sent-IsUsable line m s w (inl v) =
        inl (send_active_line-IsSound clock network port hook build_schema send law line m s w v).0
    sent-IsUsable line m s w (inr v) = rw (idle-send line m s w v.requested) (inr v)
