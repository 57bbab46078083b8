-- ===== src/Session/Teardown.antt =====
-- The end of a session, and the promotion of the connection that replaces it.
use cuddly_train.Base.{
  ℕ, suc, ◌≡◌, ◌∙◌, refl, ap, Bool, true, false, List, Option, some, none, arith, Bool-cases, inl,
  inr,
}
use cuddly_train.Counters.{Counters}
use cuddly_train.Wire.{
  LineView, MessageClass, critical, OutboundSendResult, sent, TeardownReason, schema_send_failure,
  ConnectionHandle, is_valid_connection_handle, invalid_connection,
}
use cuddly_train.Platform.{Clock, Network}
use cuddly_train.Framer.{close_session}
use cuddly_train.Framer.Invariant.{IsValid, close-IsValid}
use cuddly_train.Writer.{Writer, Sending, bind_transport, clear_transport}
use cuddly_train.Session.{
  Session, listening, session_active, session_closing, session_connected, request_teardown,
  transition_to, took, apply_request, replace_pending_teardown_reason,
}
use cuddly_train.Session.Driver.{
  tear_down, schema_answered, schema_built, promote_accepted_connection, promote_replacement,
  apply_from, apply_pending_teardown,
}
use cuddly_train.Session.Sender.{IsSender}
use cuddly_train.Session.Invariant.{IsSound, is_closing}

-- A session that was just connected: everything is as in an active one but for the state.
pub record IsFresh (s : Session) : Type 0 where
  pub set_up : s.configured ≡ true
  pub framer_valid : IsValid s.framer
  pub bound : s.writer.transport ≡ some s.active_handle
  pub active_valid : is_valid_connection_handle s.active_handle ≡ true
  pub state_is : s.state ≡ session_connected
  pub not_pending : s.teardown_pending ≡ false
  pub no_replacement : is_valid_connection_handle s.replacement_handle ≡ false

-- A session that ends, with nothing to replace it.
abbrev pub IsEnding : Session → Type 0
IsEnding s =
    IsSound s
    × (s.state ≡ session_closing)
    × (is_valid_connection_handle s.replacement_handle ≡ false)

pub fresh_request :
    (reason : TeardownReason) (s : Session) → IsFresh s → IsEnding (request_teardown reason s)
unfolding request_teardown transition_to
fresh_request reason s v = ground (
  arith, v.set_up, v.framer_valid, v.bound, v.active_valid, v.state_is, v.not_pending,
  v.no_replacement,
)

pub IsEnding-replace :
    (reason : TeardownReason) (s : Session)
    → IsEnding s
    → IsEnding (replace_pending_teardown_reason reason s)
unfolding replace_pending_teardown_reason request_teardown transition_to
IsEnding-replace reason s (v, e, r) =
    ground (arith, v.set_up, v.framer_valid, v.bound, v.in_session, v.pending, e, r)

pub fresh_replace :
    (reason : TeardownReason) (s : Session)
    → IsFresh s
    → IsEnding (replace_pending_teardown_reason reason s)
unfolding replace_pending_teardown_reason request_teardown transition_to
fresh_replace reason s v = ground (
  arith, v.set_up, v.framer_valid, v.bound, v.active_valid, v.state_is, v.not_pending,
  v.no_replacement,
)

-- A sound session that is not about to close.
abbrev pub IsSettled : Session → Type 0
IsSettled s = IsSound s × (is_closing s.state ≡ false)

-- A schema that was sent makes the session active.
fresh_active :
    (s : Session) (c : Counters)
    → IsFresh s
    → IsSettled (transition_to session_active (record s { counters = c }))
unfolding transition_to
fresh_active s c v = ground (
  arith, v.set_up, v.framer_valid, v.bound, v.active_valid, v.state_is, v.not_pending,
  v.no_replacement,
)

-- The writer's part of the session may change.
pub IsFresh-sent :
    (s : Session) (wr : Writer) (c : Counters)
    → IsFresh s
    → wr.transport ≡ s.writer.transport
    → IsFresh (record s { writer = wr; counters = c })
IsFresh-sent s wr c v e = record {
  set_up = v.set_up;
  framer_valid = v.framer_valid;
  bound = e ∙ v.bound;
  active_valid = v.active_valid;
  state_is = v.state_is;
  not_pending = v.not_pending;
  no_replacement = v.no_replacement;
}

module _ {W : Type 0} (clock : Clock W) (network : Network W) (port : ℕ)
    (hook : Option (W → Bool × W)) (build_schema : W → Option (List ℕ) × W)
    (send : LineView → MessageClass → Writer × Counters × W → Sending W) (law : IsSender send) where
  -- The continuation of a failed promotion ends the session soundly.
  abbrev pub Ends : (Session × W → Session × W) → Type 0
  Ends again = (s : Session) (w : W) → IsEnding s → IsSettled (again (s, w)).0

  answered-IsSettled :
      (again : Session × W → Session × W) (r : OutboundSendResult) (t : Option TeardownReason)
      (s : Session) (w : W)
      → Ends again
      → IsFresh s
      → (r ≡ sent → t ≡ none)
      → IsSettled
          (schema_answered clock network port hook build_schema send again r
            (apply_request t s, w)).0
  unfolding schema_answered
  answered-IsSettled again sent none s w a v q = fresh_active s _ v
  answered-IsSettled again sent (some r) s w a v q = absurd (some≢none (q refl))
    where
      some≢none : (some r ≡ none) → ⊥
      some≢none e = cc
  answered-IsSettled again _ none s w a v q = a _ w (fresh_replace schema_send_failure s v)
  answered-IsSettled again _ (some r) s w a v q =
      a _ w (IsEnding-replace schema_send_failure _ (fresh_request r s v))

  built-IsSettled :
      (again : Session × W → Session × W) (line : Option (List ℕ)) (s : Session) (w : W)
      → Ends again
      → IsFresh s
      → IsSettled (schema_built clock network port hook build_schema send again line (s, w)).0
  unfolding schema_built took
  built-IsSettled again none s w a v = a _ w (fresh_request schema_send_failure s v)
  built-IsSettled again (some line) s w a v =
      let out = send (some line) critical (s.writer, s.counters, w) in
      answered-IsSettled again out.result out.teardown _ out.world a
        (IsFresh-sent s out.writer out.counters v
          (law.keeps_transport (some line) critical s.writer s.counters w))
        (law.sent_quiet (some line) critical s.writer s.counters w)

  pub connected-IsFresh :
      (handle : ConnectionHandle) (s : Session)
      → IsSound s
      → s.state ≡ listening
      → is_valid_connection_handle handle ≡ true
      → IsFresh (
          transition_to session_connected (record s {
            active_handle = handle;
            writer = bind_transport handle s.writer;
            framer = close_session s.framer;
          }))
  unfolding transition_to bind_transport
  connected-IsFresh handle s v e h =
      ground
        (arith, v.set_up, v.pending, v.replacement, e, h, close-IsValid s.framer v.framer_valid)

  pub promote-IsSettled :
      (again : Session × W → Session × W) (handle : ConnectionHandle) (s : Session) (w : W)
      → Ends again
      → IsSound s
      → s.state ≡ listening
      → is_valid_connection_handle handle ≡ true
      → IsSettled
          (promote_accepted_connection clock network port hook build_schema send again handle
            (s, w)).0
  unfolding promote_accepted_connection
  promote-IsSettled again handle s w a v e h =
      let (there, w₁) = network.has_transport handle w in
      let (line, w₂) = build_schema w₁ in
      elim (Bool-cases there) [
        | inl t ↦
            rw (t, promote_accepted_connection)
              (built-IsSettled again line _ w₂ a (connected-IsFresh handle s v e h))
        | inr t ↦
            rw (t, promote_accepted_connection)
              (ground (
                arith, v.set_up, v.framer_valid, v.bound, v.in_session, v.pending, v.at_rest,
                v.replacement,
              ))
      ]

  -- What is torn down listens again, with no connection, no line and no pending teardown.
  pub tear_down-IsSound :
      (s : Session) (w : W)
      → IsSound s
      → s.state ≡ session_closing
      → let (s', _) = tear_down clock network port hook build_schema send (s, w) in
        (s'.state ≡ listening)
        × (is_valid_connection_handle s'.active_handle ≡ false)
        × (s'.teardown_pending ≡ false)
        × (s'.replacement_handle ≡ s.replacement_handle)
        × (s'.configured ≡ true)
        × (s'.writer.transport ≡ none)
        × IsValid s'.framer
  unfolding tear_down transition_to clear_transport
  tear_down-IsSound s w v e =
      ground (arith, v.set_up, v.in_session, e, close-IsValid s.framer v.framer_valid)

  pub torn-IsSound :
      (s : Session) (w : W)
      → IsSound s
      → s.state ≡ session_closing
      → let (s', _) = tear_down clock network port hook build_schema send (s, w) in
        (is_valid_connection_handle s'.replacement_handle ≡ false → IsSound s')
        × IsSound (record s' { replacement_handle = invalid_connection })
        × (s'.state ≡ listening)
  torn-IsSound s w v e =
      let s' = (tear_down clock network port hook build_schema send (s, w)).0 in
      let (listens, inactive, quiet, _, set_up, unbound, valid) = tear_down-IsSound s w v e in
      (
        λ r. sound s' listens inactive quiet set_up unbound valid r,
        sound (record s' { replacement_handle = invalid_connection }) listens inactive quiet set_up
            unbound valid refl,
        listens,
      )
    where
      sound :
          (t : Session)
          → t.state ≡ listening
          → is_valid_connection_handle t.active_handle ≡ false
          → t.teardown_pending ≡ false
          → t.configured ≡ true
          → t.writer.transport ≡ none
          → IsValid t.framer
          → is_valid_connection_handle t.replacement_handle ≡ false
          → IsSound t
      sound t a b c d f g h = ground arith

  replace-IsSettled :
      (again : Session × W → Session × W) (s : Session) (w : W)
      → Ends again
      → IsSound s
      → s.state ≡ session_closing
      → IsSettled
          (promote_replacement clock network port hook build_schema send again
            (tear_down clock network port hook build_schema send (s, w))).0
  unfolding promote_replacement
  replace-IsSettled again s w a v e =
      let (s', w') = tear_down clock network port hook build_schema send (s, w) in
      let (alone, cleared, listens) = torn-IsSound s w v e in
      elim (Bool-cases (is_valid_connection_handle s'.replacement_handle)) [
        | inl r ↦
            rw (r, promote_replacement)
              (promote-IsSettled again s'.replacement_handle _ w' a cleared listens r)
        | inr r ↦ rw (r, promote_replacement) (alone r, ground (arith, listens))
      ]

  pub apply_from-closing :
      (n : ℕ) (s : Session) (w : W)
      → IsSound s
      → s.state ≡ session_closing
      → apply_from clock network port hook build_schema send (suc n) (s, w)
        ≡ promote_replacement clock network port hook build_schema send
            (apply_from clock network port hook build_schema send n)
            (tear_down clock network port hook build_schema send (s, w))
  unfolding apply_from
  apply_from-closing n s w v e = ground (arith, v.set_up, v.pending, e)

  -- A session that ends with no replacement is over after one round.
  pub apply_from-Ends :
      (n : ℕ) → Ends (apply_from clock network port hook build_schema send (suc n))
  unfolding promote_replacement
  apply_from-Ends n s w (v, e, r) =
      let (s', w') = tear_down clock network port hook build_schema send (s, w) in
      let (alone, _, listens) = torn-IsSound s w v e in
      let same = (tear_down-IsSound s w v e).3 in
      let none_waits : is_valid_connection_handle s'.replacement_handle ≡ false =
        ap is_valid_connection_handle same ∙ r in
      rw (apply_from-closing n s w v e)
        (rw (none_waits, promote_replacement) (alone none_waits, ground (arith, listens)))

  pub apply_from-quiet :
      (n : ℕ) (s : Session) (w : W)
      → s.teardown_pending ≡ false
      → apply_from clock network port hook build_schema send (suc n) (s, w) ≡ (s, w)
  unfolding apply_from
  apply_from-quiet n s w e = ground (arith, e)

  -- For a writer that is a sender, applying a teardown to a sound session keeps the invariant and
  -- settles it: no teardown is pending afterwards, so the
  -- session is not closing. It listens with no connection, or is active with the connection that
  -- replaces the old one; one that could not be sent the schema is torn down in its turn.
  pub apply_pending_teardown-IsSettled :
      (s : Session) (w : W)
      → IsSound s
      → IsSettled (apply_pending_teardown clock network port hook build_schema send (s, w)).0
  unfolding apply_pending_teardown
  apply_pending_teardown-IsSettled s w v = elim (Bool-cases (is_closing s.state)) [
    | inl e ↦
        rw (apply_from-closing 1 s w v (closing s e))
          (replace-IsSettled _ s w (apply_from-Ends 0) v (closing s e))
    | inr e ↦ rw (apply_from-quiet 1 s w (v.pending ∙ e)) (v, e)
  ]
    where
      closing : (s : Session) → is_closing s.state ≡ true → s.state ≡ session_closing
      closing s e = ground arith
