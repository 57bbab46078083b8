-- ===== src/Estop/History.antt =====
-- Histories: what the board's code, the service loop and the network make the handler and the
-- scheduler do, in any order. The calls are those of src/TeensyCommandServer.h.
use cuddly_train.Base.{
  ◌≡◌, ◌∙◌, refl, Bool, true, false, ◌||◌, ◌&&◌, List, [], ◌∷◌, Option, some, none, arith, CString,
}
use cuddly_train.Wire.{LineView, MessageClass, OutboundSendResult}
use cuddly_train.Platform.{Clock}
use cuddly_train.Protocol.{BoardIdentity}
use cuddly_train.Outbound.{
  OutboundKind, OutboundOutcome, Scheduler, is_estop_triggered, enqueue_critical, drain_one,
  OutboundEnqueueResult, clear_for_session_end,
}
use cuddly_train.Outbound.Cancel.{holds_triggered}
use cuddly_train.Outbound.Queue.{queue}
use cuddly_train.Estop.{
  EstopHandler, is_queued, is_empty, is_sent, request_estop_triggered, service, on_outbound_outcome,
  after_enqueue,
}
use cuddly_train.Estop.Linked.{Linked}
use cuddly_train.Estop.Steps.{
  request-Linked, enqueue-Linked, service-Linked, drain-Linked, route_outcome,
}
use cuddly_train.Estop.Delivery.{end_session, end_session_lem, end_session-Linked, ended}

-- Only the handler queues the event, so the other lines are of other kinds.
pub data Event : Type 0 where
  requests : CString → Event
  serves drains ends : Event
  enqueues : (kind : OutboundKind) → is_estop_triggered kind ≡ false → LineView → Event

-- Whether an outcome says that the event was sent.
abbrev pub reports : Option OutboundOutcome → Bool
reports none = false
reports (some o) = is_estop_triggered o.kind && is_sent o.completion

-- The same event is pending in both.
pub record Keeps (h h' : EstopHandler) : Type 0 where
  pub still_pending : is_empty h'.state ≡ false
  pub same_reason : h'.reason ≡ h.reason
  pub same_time : h'.timestamp_ms ≡ h.timestamp_ms

module _ {W : Type 0} (clock : Option (Clock W)) (identity : BoardIdentity)
    (send : LineView → MessageClass → W → OutboundSendResult × W) where
  -- One event, and whether it reported the board's e-stop event as sent.
  unfoldable pub step : Event → EstopHandler × Scheduler × W → Bool × EstopHandler × Scheduler × W
  step (requests reason) (h, s, w) =
      let (_, h', s', w') = request_estop_triggered reason clock (h, s, w) in (false, h', s', w')
  step serves (h, s, w) = let (_, h', s') = service identity (h, s) in (false, h', s', w)
  step drains (h, s, w) =
      let (o, s', w') = drain_one send s w in
      let (h'', s'') = route_outcome o (h, s') in (reports o, h'', s'', w')
  step ends (h, s, w) = let (h', s') = end_session (h, s) in (false, h', s', w)
  step (enqueues kind _ line) (h, s, w) = (false, h, (enqueue_critical kind line s).1, w)

  unfoldable pub run :
      List Event → EstopHandler × Scheduler × W → Bool × EstopHandler × Scheduler × W
  run [] (h, s, w) = (false, h, s, w)
  run (e ∷ es) (h, s, w) =
      let (sent_now, h', s', w') = step e (h, s, w) in
      let (sent_later, h'', s'', w'') = run es (h', s', w') in
      (sent_now || sent_later, h'', s'', w'')

  pub step-Linked :
      (e : Event) (h : EstopHandler) (s : Scheduler) (w : W)
      → Linked h s
      → let (_, h', s', _) = step e (h, s, w) in Linked h' s'
  unfolding step
  step-Linked (requests reason) h s w l = request-Linked clock reason h s w l
  step-Linked serves h s w l = service-Linked identity h s l
  step-Linked drains h s w l = drain-Linked send h s w l
  step-Linked ends h s w l = end_session-Linked h s l
  step-Linked (enqueues kind other line) h s w l = enqueue-Linked kind line h s other l

  request-Keeps :
      (reason : CString) (h : EstopHandler) (s : Scheduler) (w : W)
      → is_empty h.state ≡ false
      → Keeps h (request_estop_triggered reason clock (h, s, w)).1
  unfolding request_estop_triggered
  request-Keeps none h s w n =
      rw n (record { still_pending = n; same_reason = refl; same_time = refl })
  request-Keeps (some reason) h s w n =
      rw n (record { still_pending = n; same_reason = refl; same_time = refl })

after_enqueue-Keeps :
    (h : EstopHandler) (r : OutboundEnqueueResult) (s : Scheduler)
    → is_empty h.state ≡ false
    → Keeps h (after_enqueue h (r, s)).1
after_enqueue-Keeps h r s n = ground arith

service-Keeps :
    (identity : BoardIdentity) (h : EstopHandler) (s : Scheduler)
    → is_empty h.state ≡ false
    → Keeps h (service identity (h, s)).1
unfolding service
service-Keeps identity h s n = ground arith

outcome-Keeps :
    (o : Option OutboundOutcome) (h : EstopHandler) (s : Scheduler)
    → is_empty h.state ≡ false
    → reports o ≡ false
    → Keeps h (route_outcome o (h, s)).0
unfolding route_outcome on_outbound_outcome
outcome-Keeps none h s n f = ground arith
outcome-Keeps (some o) h s n f = ground arith

ended-Keeps :
    (b : Bool) (h : EstopHandler) (s : Scheduler)
    → is_empty h.state ≡ false
    → Keeps h (ended b h s).0
ended-Keeps true h s n = ground arith
ended-Keeps false h s n = ground arith

module _ {W : Type 0} (clock : Option (Clock W)) (identity : BoardIdentity)
    (send : LineView → MessageClass → W → OutboundSendResult × W) where
  step-Keeps :
      (e : Event) (h : EstopHandler) (s : Scheduler) (w : W)
      → Linked h s
      → is_empty h.state ≡ false
      → (step clock identity send e (h, s, w)).0 ≡ false
      → Keeps h (step clock identity send e (h, s, w)).1
  unfolding step
  step-Keeps (requests reason) h s w l n f = request-Keeps clock identity send reason h s w n
  step-Keeps serves h s w l n f = service-Keeps identity h s n
  step-Keeps drains h s w l n f = outcome-Keeps (drain_one send s w).0 h (drain_one send s w).1 n f
  step-Keeps ends h s w l n f =
      rw (end_session_lem h s l) (
        ended-Keeps (holds_triggered (queue s) && is_queued h.state) h (clear_for_session_end s).1
          n)
  step-Keeps (enqueues kind other line) h s w l n f = record {
    still_pending = n;
    same_reason = refl;
    same_time = refl;
  }

  -- The board's e-stop event is never lost. In any order of requests, of service calls, of lines
  -- queued by others, of drains (whatever the session answers) and of ends of sessions, an event that
  -- is pending stays pending with its reason and its time, until a drain has reported it as sent; and
  -- the handler and the scheduler stay linked: a queued event is one line of the queue, another
  -- pending event none.
  pub run-Keeps :
      (es : List Event) (h : EstopHandler) (s : Scheduler) (w : W)
      → Linked h s
      → is_empty h.state ≡ false
      → (run clock identity send es (h, s, w)).0 ≡ false
      → let (_, h', s', _) = run clock identity send es (h, s, w) in Keeps h h' × Linked h' s'
  unfolding run
  run-Keeps [] h s w l n f = (record { still_pending = n; same_reason = refl; same_time = refl }, l)
  run-Keeps (e ∷ es) h s w l n f =
      let (sent_now, h', s', w') = step clock identity send e (h, s, w) in
      let here = step-Keeps e h s w l n (ground arith) in
      let later =
        run-Keeps es h' s' w' (step-Linked clock identity send e h s w l) here.still_pending
          (ground arith) in
      (
        record {
          still_pending = later.0.still_pending;
          same_reason = later.0.same_reason ∙ here.same_reason;
          same_time = later.0.same_time ∙ here.same_time;
        },
        later.1,
      )

  -- From the start on, whatever happens, the handler and the scheduler stay linked.
  pub run-Linked :
      (es : List Event) (h : EstopHandler) (s : Scheduler) (w : W)
      → Linked h s
      → let (_, h', s', _) = run clock identity send es (h, s, w) in Linked h' s'
  unfolding run
  run-Linked [] h s w l = l
  run-Linked (e ∷ es) h s w l = run-Linked es _ _ _ (step-Linked clock identity send e h s w l)
