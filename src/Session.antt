-- ===== src/Session.antt =====
-- src/core/SessionState.h and the data of src/core/SessionDriver.h: the life of one connection at a
-- time. The operations that call the network are in Session/Driver.
pub mod Driver
pub mod Sender
pub mod Invariant
pub mod Teardown
pub mod Successor
pub mod Reading
pub mod Polling
pub mod Idle
pub mod Delivery
mod Tests
use cuddly_train.Base.{
  ℕ, Bool, true, false, not, ◌&&◌, ◌||◌, Option, none, some, ◌==◌, if◌then◌else◌,
}
use cuddly_train.Counters.{Counters, Field, increment}
use cuddly_train.Wire.{
  OutboundSendResult, TeardownReason, explicit_shutdown, ConnectionHandle,
  is_valid_connection_handle, invalid_connection,
}
use cuddly_train.Framer.{Framer}
use cuddly_train.Writer.{Writer, Sending}

pub data SessionState : Type 0 where
  boot_safe network_starting listening session_connected session_active session_closing :
      SessionState

abbrev pub state_code : SessionState → ℕ
state_code boot_safe = 0
state_code network_starting = 1
state_code listening = 2
state_code session_connected = 3
state_code session_active = 4
state_code session_closing = 5

abbrev pub same_state : SessionState → SessionState → Bool
same_state a b = state_code a == state_code b

abbrev pub is_valid_transition : SessionState → SessionState → Bool
is_valid_transition boot_safe to = same_state to network_starting
is_valid_transition network_starting to = same_state to listening
is_valid_transition listening to = same_state to session_connected
is_valid_transition session_connected to =
    same_state to session_active || same_state to session_closing
is_valid_transition session_active to = same_state to session_closing
is_valid_transition session_closing to = same_state to listening

-- `configured` is what `configured()` returns: the constructor's pointers, which never change.
pub record Session : Type 0 where
  pub configured : Bool
  pub state : SessionState
  pub active_handle : ConnectionHandle
  pub replacement_handle : ConnectionHandle
  pub pending_teardown_reason : TeardownReason
  pub teardown_pending : Bool
  pub network_init_attempted : Bool
  pub next_network_init_ms : ℕ
  pub framer : Framer
  pub writer : Writer
  pub counters : Counters

-- `counters_->increment(field)`.
abbrev pub count : Field → Session → Session
count field s = record s { counters = increment field s.counters }

unfoldable pub transition_to : SessionState → Session → Session
transition_to next s =
    if same_state s.state next
    then s
    else if is_valid_transition s.state next
    then record s { state = next }
    else s

abbrev pub is_active : SessionState → Bool
is_active session_active = true
is_active _ = false

abbrev pub is_connected : SessionState → Bool
is_connected session_connected = true
is_connected _ = false

unfoldable pub session_active_now : Session → Bool
session_active_now s = is_active s.state && is_valid_connection_handle s.active_handle

unfoldable pub request_teardown : TeardownReason → Session → Session
unfolding transition_to
request_teardown reason s =
    if s.teardown_pending
    then s
    else let s' = record s { teardown_pending = true; pending_teardown_reason = reason } in
      if is_connected s.state || is_active s.state then transition_to session_closing s' else s'

unfoldable pub replace_pending_teardown_reason : TeardownReason → Session → Session
unfolding request_teardown
replace_pending_teardown_reason reason s =
    if not s.teardown_pending
    then request_teardown reason s
    else record s { pending_teardown_reason = reason }

-- What a call of the writer leaves of the session: its writer and counters, and the teardown that it
-- requested through the callback.
abbrev pub apply_request : Option TeardownReason → Session → Session
apply_request none s = s
apply_request (some reason) s = request_teardown reason s

unfoldable pub took : {W : Type 0} → Sending W → Session → Session
unfolding request_teardown
took out s = apply_request out.teardown (record s { writer = out.writer; counters = out.counters })
