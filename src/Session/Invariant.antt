-- ===== src/Session/Invariant.antt =====
-- The session's invariant between two of its operations.
use cuddly_train.Base.{
  ◌≡◌, Bool, true, false, ◌||◌, Option, some, none, arith, Bool-cases, inl, inr, if◌then◌else◌,
}
use cuddly_train.Wire.{TeardownReason, ConnectionHandle, is_valid_connection_handle}
use cuddly_train.Framer.Invariant.{IsValid}
use cuddly_train.Session.{
  Session, SessionState, session_closing, is_connected, is_active, request_teardown, transition_to,
}

abbrev pub is_closing : SessionState → Bool
is_closing session_closing = true
is_closing _ = false

-- Whether a state has a connection.
abbrev pub has_session : SessionState → Bool
has_session s = is_active s || is_closing s

abbrev pub bound_to : ConnectionHandle → Option ConnectionHandle
bound_to h = if is_valid_connection_handle h then some h else none

-- Between two operations a connection is active exactly in the states `SESSION_ACTIVE` and
-- `SESSION_CLOSING`, the writer is bound to exactly that connection, a teardown is pending exactly in
-- `SESSION_CLOSING`, and only there a replacement waits.
pub record IsSound (s : Session) : Type 0 where
  pub set_up : s.configured ≡ true
  pub framer_valid : IsValid s.framer
  pub bound : s.writer.transport ≡ bound_to s.active_handle
  pub in_session : is_valid_connection_handle s.active_handle ≡ has_session s.state
  pub pending : s.teardown_pending ≡ is_closing s.state
  pub at_rest : is_connected s.state ≡ false
  pub replacement :
      is_closing s.state ≡ false → is_valid_connection_handle s.replacement_handle ≡ false

-- A teardown that is requested during a session closes it.
pub request_teardown-IsSound :
    (reason : TeardownReason) (s : Session)
    → IsSound s
    → has_session s.state ≡ true
    → IsSound (request_teardown reason s) × ((request_teardown reason s).state ≡ session_closing)
unfolding request_teardown transition_to
request_teardown-IsSound reason s v h = elim (Bool-cases (is_closing s.state)) [
  | inl e ↦ ground (arith, v.pending, e)
  | inr e ↦ ground (arith, v.pending, e, v.set_up, v.framer_valid, v.bound, v.in_session)
]
