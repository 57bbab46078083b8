-- ===== src/Session/Driver.antt =====
-- The operations of src/core/SessionDriver.h that call the network, the clock, the board's hook, the
-- schema builder or the writer.
use cuddly_train.Base.{
  ℕ, zero, suc, Bool, true, false, not, ◌&&◌, ◌||◌, ◌*◌, List, Option, none, some, ◌==◌, ltb,
  if◌then◌else◌, length,
}
use cuddly_train.Limits.{network_init_retry_ms, hook_budget_ms}
use cuddly_train.Counters.{
  Counters, increment, sessions_accepted, sessions_rejected, sessions_superseded, schemas_sent,
  controller_disconnects, controller_loss_hook_over_budget,
}
use cuddly_train.Wire.{
  LineView, MessageClass, critical, OutboundSendResult, sent, no_active_transport, ConnectionHandle,
  invalid_connection, is_valid_connection_handle, TransportConnectionState, is_open,
  bytes_available, closed, link_down, NetworkAvailability, ready, superseded, schema_send_failure,
  connection_lost, link_lost, explicit_shutdown,
}
use cuddly_train.Platform.{Clock, Network, elapsed}
use cuddly_train.Framer.{close_session, has_line, append, acquire_line, release_line}
use cuddly_train.Writer.{Writer, Sending, bind_transport, clear_transport}
use cuddly_train.Session.{
  Session, SessionState, network_starting, listening, session_connected, session_active, boot_safe,
  same_state, count, transition_to, is_active, request_teardown, replace_pending_teardown_reason,
  took, session_active_now,
}

abbrev pub is_ready : NetworkAvailability → Bool
is_ready ready = true
is_ready _ = false

abbrev pub accepted_replacement : Option ConnectionHandle → Session → Session
accepted_replacement none s = count sessions_rejected s
accepted_replacement (some handle) s =
    request_teardown superseded (record (count sessions_superseded (count sessions_accepted s)) {
      replacement_handle = handle;
    })

abbrev pub lost : TransportConnectionState → Session → Session
lost closed s = request_teardown connection_lost s
lost link_down s = request_teardown link_lost s
lost is_open s = s
lost bytes_available s = s

abbrev pub has_bytes : TransportConnectionState → Bool
has_bytes bytes_available = true
has_bytes _ = false

-- `build_schema` is `SchemaBuilder::buildSchemaLine`, `none` where its status is not ok; `send` is
-- `OutboundWriter::sendLine`; `hook` is the board's controller-loss hook, `none` for a null pointer.
module _ {W : Type 0} (clock : Clock W) (network : Network W) (port : ℕ)
    (hook : Option (W → Bool × W)) (build_schema : W → Option (List ℕ) × W)
    (send : LineView → MessageClass → Writer × Counters × W → Sending W) where
  unfoldable pub begin : Session × W → Session × W
  begin (s, w) =
      let (now, w') = clock.monotonic_milliseconds w in
      if not (same_state s.state boot_safe)
      then (s, w)
      else (record (transition_to network_starting s) { next_network_init_ms = now }, w')

  unfoldable pub run_controller_loss_hook : Option (W → Bool × W) → Counters × W → Counters × W
  run_controller_loss_hook none (c, w) = (c, w)
  run_controller_loss_hook (some loss) (c, w) =
      let (begun, w₁) = clock.monotonic_microseconds w in
      let w₂ = (loss w₁).1 in
      let (done, w₃) = clock.monotonic_microseconds w₂ in
      (
        if ltb (hook_budget_ms * 1000) (elapsed done begun)
            then increment controller_loss_hook_over_budget c
            else c,
        w₃,
      )

  -- `applyPendingTeardown` up to the promotion of a replacement.
  unfoldable pub tear_down : Session × W → Session × W
  tear_down (s, w) =
      let had_active = is_valid_connection_handle s.active_handle in
      let (c, w₁) =
        (if had_active then run_controller_loss_hook hook (s.counters, w) else (s.counters, w)) in
      (
        transition_to listening (record s {
          framer = close_session s.framer;
          writer = clear_transport s.writer;
          active_handle = if had_active then invalid_connection else s.active_handle;
          counters = if had_active then increment controller_disconnects c else c;
          teardown_pending = false;
          pending_teardown_reason = explicit_shutdown;
        }),
        if had_active then network.abort s.active_handle w₁ else w₁,
      )

  -- `promoteAcceptedConnection`, in the order of its calls; `again` is `applyPendingTeardown`.
  unfoldable pub schema_answered :
      (Session × W → Session × W) → OutboundSendResult → Session × W → Session × W
  schema_answered again sent (s, w) = (transition_to session_active (count schemas_sent s), w)
  schema_answered again _ (s, w) = again (replace_pending_teardown_reason schema_send_failure s, w)

  unfoldable pub schema_built :
      (Session × W → Session × W) → Option (List ℕ) → Session × W → Session × W
  schema_built again none (s, w) = again (request_teardown schema_send_failure s, w)
  schema_built again (some line) (s, w) =
      let out = send (some line) critical (s.writer, s.counters, w) in
      schema_answered again out.result (took out s, out.world)

  unfoldable pub promote_accepted_connection :
      (Session × W → Session × W) → ConnectionHandle → Session × W → Session × W
  promote_accepted_connection again handle (s, w) =
      let (there, w₁) = network.has_transport handle w in
      let (line, w₂) = build_schema w₁ in
      if not there
      then (count sessions_rejected s, w₁)
      else schema_built again line (
        transition_to session_connected (record s {
          active_handle = handle;
          writer = bind_transport handle s.writer;
          framer = close_session s.framer;
        }),
        w₂,
      )

  unfoldable pub promote_replacement : (Session × W → Session × W) → Session × W → Session × W
  promote_replacement again (s, w) =
      if is_valid_connection_handle s.replacement_handle
      then promote_accepted_connection again s.replacement_handle
          (record s { replacement_handle = invalid_connection }, w)
      else (s, w)

  -- `applyPendingTeardown` and `promoteAcceptedConnection` call one another.
  unfoldable pub apply_from : ℕ → Session × W → Session × W
  apply_from zero (s, w) = (s, w)
  apply_from (suc n) (s, w) =
      if not s.teardown_pending || not s.configured
      then (s, w)
      else promote_replacement (apply_from n) (tear_down (s, w))

  unfoldable pub apply_pending_teardown : Session × W → Session × W
  apply_pending_teardown (s, w) = apply_from 2 (s, w)

  unfoldable pub listen_again : Session × W → Session × W
  listen_again (s, w) =
      let (began, w₁) = network.listen port w in
      let (now, w₂) = clock.monotonic_milliseconds w₁ in
      let s' = record s { network_init_attempted = true } in
      if not began
      then (record s' { next_network_init_ms = now }, w₂)
      else (transition_to listening s', w₁)

  unfoldable pub pump_network_starting : Session × W → Session × W
  pump_network_starting (s, w) =
      let (available, w₁) = network.availability w in
      let (now, w₂) = clock.monotonic_milliseconds w₁ in
      if not (is_ready available)
      then (s, w₁)
      else if s.network_init_attempted
      then (if ltb (elapsed now s.next_network_init_ms) network_init_retry_ms
          then (s, w₂)
          else listen_again (s, w₂))
      else listen_again (s, w₁)

  -- `accept()`, and whether the handle is valid and has a transport.
  unfoldable pub accept_checked : W → Option ConnectionHandle × W
  accept_checked w =
      let (handle, w₁) = network.accept w in
      let (there, w₂) = network.has_transport handle w₁ in
      if not (is_valid_connection_handle handle)
      then (none, w₁)
      else (if there then some handle else none, w₂)

  abbrev pub accepted_listening : Option ConnectionHandle → Session × W → Session × W
  accepted_listening none (s, w) = (count sessions_rejected s, w)
  accepted_listening (some handle) (s, w) =
      promote_accepted_connection apply_pending_teardown handle (count sessions_accepted s, w)

  -- The listener is restored when the network is ready but does not listen.
  unfoldable pub restore_listener : W → W
  restore_listener w =
      let (available, w₁) = network.availability w in
      let (on, w₂) = network.is_listening w₁ in
      if not (is_ready available) then w₁ else if on then w₂ else (network.listen port w₂).1

  unfoldable pub pump_listening : Session × W → Session × W
  pump_listening (s, w) =
      let (waiting, w₁) = network.has_pending_connection (restore_listener w) in
      let (handle, w₂) = accept_checked w₁ in
      if not waiting then (s, w₁) else accepted_listening handle (s, w₂)

  unfoldable pub accept_replacement : Session × W → Session × W
  accept_replacement (s, w) =
      let (handle, w') = accept_checked w in (accepted_replacement handle s, w')

  unfoldable pub detect_active_loss : Session × W → Session × W
  detect_active_loss (s, w) =
      let (there, w₁) = network.has_transport s.active_handle w in
      let (state, w₂) = network.connection_state s.active_handle w₁ in
      if not there then (request_teardown connection_lost s, w₁) else (lost state s, w₂)

  -- The loop of `readAvailable`, with fuel; `none` means that the fuel ran out.
  unfoldable pub read_loop : ℕ → Session × W → Option (Session × W)
  read_loop zero (s, w) = none
  read_loop (suc n) (s, w) =
      let (state, w₁) = network.connection_state s.active_handle w in
      let (bytes, w₂) = network.read_some s.active_handle 64 w₁ in
      let (_, f, c) = append (some bytes) (s.framer, s.counters) in
      let rest = read_loop n (record s { framer = f; counters = c }, w₂) in
      if has_line s.framer
      then some (s, w)
      else if not (has_bytes state)
      then some (lost state s, w₁)
      else if length bytes == 0
      then some (detect_active_loss (s, w₂))
      else rest

  unfoldable pub read_available : ℕ → Session × W → Option (Session × W)
  read_available fuel (s, w) =
      let (there, w₁) = network.has_transport s.active_handle w in
      if not there then some (request_teardown connection_lost s, w₁) else read_loop fuel (s, w₁)

  unfoldable pub poll_session : ℕ → Session × W → Option (Session × W)
  poll_session fuel (s, w) =
      let (waiting, w₁) = network.has_pending_connection w in
      let (s', w₂) = detect_active_loss (s, w₁) in
      if waiting
      then some (accept_replacement (s, w₁))
      else if is_active s'.state && not s'.teardown_pending
      then read_available fuel (s', w₂)
      else some (s', w₂)

  abbrev pub poll_state : ℕ → SessionState → Session × W → Option (Session × W)
  poll_state fuel network_starting (s, w) = some (pump_network_starting (s, w))
  poll_state fuel listening (s, w) = some (pump_listening (s, w))
  poll_state fuel session_connected (s, w) = poll_session fuel (s, w)
  poll_state fuel session_active (s, w) = poll_session fuel (s, w)
  poll_state fuel _ (s, w) = some (s, w)

  unfoldable pub poll : ℕ → Session × W → Option (Session × W)
  poll fuel (s, w) =
      if not s.configured then some (s, w) else poll_state fuel s.state (s, network.progress w)

  unfoldable pub send_active_line :
      LineView → MessageClass → Session × W → OutboundSendResult × Session × W
  send_active_line line message_class (s, w) =
      let out = send line message_class (s.writer, s.counters, w) in
      if not (session_active_now s) || s.teardown_pending
      then (no_active_transport, s, w)
      else (out.result, took out s, out.world)

  abbrev pub take_line : Session × W → LineView × Session × W
  take_line (s, w) =
      let (line, f) = acquire_line s.framer in
      if not (has_line s.framer) then (none, s, w) else (line, record s { framer = f }, w)

  -- A line, or the null view where the source returns `false`.
  unfoldable pub next_line : ℕ → Session × W → Option (LineView × Session × W)
  next_line fuel (s, w) =
      if not (session_active_now s) || s.teardown_pending
      then some (none, s, w)
      else if has_line s.framer
      then some (take_line (s, w))
      else elim (read_available fuel (s, w)) [ none ↦ none | some out ↦ some (take_line out) ]

  unfoldable pub release_active_line : Session → Session
  release_active_line s = if s.configured then record s { framer = release_line s.framer } else s
