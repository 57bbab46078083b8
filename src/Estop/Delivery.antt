-- ===== src/Estop/Delivery.antt =====
-- The board's e-stop event across the life of sessions: the handler, the scheduler, and the routing
-- of outcomes that src/core/ServiceLoop.h and src/TeensyCommandServer.h put between them.
use cuddly_train.Base.{
  ◌≤◌, ◌<◌, ◌≡◌, ◌∙◌, refl, ap, Bool, true, false, ◌&&◌, List, [], ◌∷◌, ◌++◌, arith, length,
  if◌then◌else◌, inl, inr, Bool-cases,
}
use cuddly_train.Outbound.{
  OutboundKind, OutboundOutcome, EstopTriggeredPendingState, CriticalEntry, Scheduler,
  is_estop_triggered, mark_estop_triggered_pending, clear_for_session_end, canceled, telemetry,
}
use cuddly_train.Outbound.Queue.{queue, IsValid}
use cuddly_train.Outbound.Cancel.{cancellations, holds_triggered, clear_for_session_end_lem}
use cuddly_train.Estop.{EstopHandler, pending_not_queued, is_queued, on_outbound_outcome}
use cuddly_train.Estop.Linked.{Linked, triggered, expected_state}

-- The outcomes of a batch, routed one after the other.
unfoldable pub route_all :
    List OutboundOutcome → EstopHandler × Scheduler → EstopHandler × Scheduler
route_all [] (h, s) = (h, s)
route_all (o ∷ os) (h, s) = route_all os (on_outbound_outcome o (h, s))

-- The e-stop event goes back to pending.
abbrev pub requeue : EstopHandler → EstopHandler
requeue h = record h { state = pending_not_queued }

outcome-canceled :
    (k : OutboundKind) (h : EstopHandler) (s : Scheduler)
    → on_outbound_outcome (canceled k) (h, s) ≡ (
        if is_estop_triggered k && is_queued h.state
        then (requeue h, mark_estop_triggered_pending s)
        else (h, s))
unfolding on_outbound_outcome
outcome-canceled k h s = ground arith

-- Routing the cancellations of a session's end returns a queued event to pending, once.
route_all-cancellations :
    (es : List CriticalEntry) (rest : List OutboundOutcome) (h : EstopHandler) (s : Scheduler)
    → route_all (cancellations es ++ rest) (h, s)
      ≡ route_all rest (
          if holds_triggered es && is_queued h.state
          then (requeue h, mark_estop_triggered_pending s)
          else (h, s))
unfolding route_all
route_all-cancellations [] rest h s = refl
route_all-cancellations (e ∷ es) rest h s =
    ap (route_all (cancellations es ++ rest)) (outcome-canceled e.kind h s)
    ∙ ground (
      arith,
      route_all-cancellations es rest (requeue h) (mark_estop_triggered_pending s),
      route_all-cancellations es rest h s,
    )

triggered-zero : (es : List CriticalEntry) → holds_triggered es ≡ false → triggered es ≡ 0
triggered-zero [] h = refl
triggered-zero (e ∷ es) h = ground (arith, triggered-zero es)

triggered-pos : (es : List CriticalEntry) → holds_triggered es ≡ true → 0 < triggered es
triggered-pos [] h = cc
triggered-pos (e ∷ es) h = ground (arith, triggered-pos es)

-- The end of a session: all that waits is canceled, and the outcomes are routed.
unfoldable pub end_session : EstopHandler × Scheduler → EstopHandler × Scheduler
end_session (h, s) = let (batch, s') = clear_for_session_end s in route_all batch (h, s')

route_all-telemetry :
    (b : Bool) (p : EstopHandler × Scheduler)
    → route_all (if b then canceled telemetry ∷ [] else []) p ≡ p
unfolding route_all on_outbound_outcome
route_all-telemetry true (h, s) = refl
route_all-telemetry false (h, s) = refl

pub end_session_lem :
    (h : EstopHandler) (s : Scheduler)
    → Linked h s
    → let (batch, s') = clear_for_session_end s in
      end_session (h, s) ≡ (
        if holds_triggered (queue s) && is_queued h.state
        then (requeue h, mark_estop_triggered_pending s')
        else (h, s'))
unfolding end_session route_all
end_session_lem h s l =
    let (batch, s') = clear_for_session_end s in
    let e = (clear_for_session_end_lem s l.array).0 in
    ap (λ b. route_all b (h, s')) e
    ∙ route_all-cancellations (queue s) _ h s'
    ∙ route_all-telemetry s.telemetry_active _

-- Whether an event is queued shows in the queue.
is_queued-holds :
    (h : EstopHandler) (s : Scheduler) → Linked h s → is_queued h.state ≡ holds_triggered (queue s)
is_queued-holds h s l =
    ground (arith, l.lines_agree, triggered-zero (queue s), triggered-pos (queue s))

-- The two states behind the end of a session, by whether an event was queued.
abbrev pub ended : Bool → EstopHandler → Scheduler → EstopHandler × Scheduler
ended was_queued h s = if was_queued then (requeue h, mark_estop_triggered_pending s) else (h, s)

requeued-Linked :
    (h : EstopHandler) (s : Scheduler)
    → IsValid s
    → queue s ≡ []
    → s.estop_triggered_state ≡ EstopTriggeredPendingState.pending_not_queued
    → length h.reason ≤ 160
    → Linked (requeue h) (mark_estop_triggered_pending s)
unfolding mark_estop_triggered_pending
requeued-Linked h s v q st r = record {
  array = record { array_size = v.array_size; count_fits = v.count_fits };
  state_agrees = rw st;
  lines_agree = ap triggered q;
  reason_fits = r;
}

idle-Linked :
    (h : EstopHandler) (s : Scheduler)
    → IsValid s
    → queue s ≡ []
    → s.estop_triggered_state ≡ expected_state h.state
    → is_queued h.state ≡ false
    → length h.reason ≤ 160
    → Linked h s
idle-Linked h s v q st n r = record {
  array = v;
  state_agrees = st;
  lines_agree = ground (arith, ap triggered q);
  reason_fits = r;
}

ended-Linked :
    (h : EstopHandler) (s s' : Scheduler)
    → Linked h s
    → IsValid s'
    → queue s' ≡ []
    → s'.estop_triggered_state ≡ (
        if holds_triggered (queue s)
        then EstopTriggeredPendingState.pending_not_queued
        else s.estop_triggered_state)
    → let (h'', s'') = ended (holds_triggered (queue s) && is_queued h.state) h s' in Linked h'' s''
ended-Linked h s s' l v q st = elim (Bool-cases (holds_triggered (queue s))) [
  | inl y ↦
      rw (y, is_queued-holds h s l ∙ y)
        (requeued-Linked h s' v q (ground (arith, st)) l.reason_fits)
  | inr n ↦ rw n (
      idle-Linked h s' v q (ground (arith, st, l.state_agrees)) (is_queued-holds h s l ∙ n)
        l.reason_fits)
]

pub end_session-Linked :
    (h : EstopHandler) (s : Scheduler)
    → Linked h s
    → let (h', s') = end_session (h, s) in Linked h' s'
end_session-Linked h s l =
    let (_, _, no_lines, st, valid) = clear_for_session_end_lem s l.array in
    rw (end_session_lem h s l) (ended-Linked h s (clear_for_session_end s).1 l valid no_lines st)
