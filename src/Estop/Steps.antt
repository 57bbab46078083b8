-- ===== src/Estop/Steps.antt =====
-- Each operation on the handler and the scheduler keeps the two linked.
use cuddly_train.Base.{
  bounded_from, bounded_from_lem, ℕ, ◌+◌, ◌≤◌, ◌≡◌, refl, true, false, ◌&&◌, List, [], ◌∷◌, Option,
  some, none, arith, length, if◌then◌else◌, ltb, inl, inr, Bool-cases, CString, length-take,
  Option-cases, ◌≢◌,
}
use cuddly_train.Wire.{LineView, MessageClass, OutboundSendResult}
use cuddly_train.Platform.{Clock, read_ms}
use cuddly_train.Protocol.{BoardIdentity}
use cuddly_train.Outbound.{
  OutboundKind, OutboundOutcome, OutboundCompletion, OutboundEnqueueResult,
  EstopTriggeredPendingState, Scheduler, is_estop_triggered, enqueue_critical,
  mark_estop_triggered_pending, estop_triggered, drain_one, telemetry,
}
use cuddly_train.Outbound.Queue.{queue, IsValid, accepts, queued_entry, enqueue_critical_lem}
use cuddly_train.Outbound.Drain.{drain_one_lem}
use cuddly_train.Estop.{
  EstopHandler, pending_not_queued, queued_awaiting_completion, is_empty, accept_reason,
  bounded_length, request_estop_triggered, service, on_outbound_outcome, after_enqueue,
  build_estop_triggered_line, is_pending_not_queued,
}
use cuddly_train.Estop.Linked.{
  Linked, triggered, triggered-append, triggered-erase_at, entry_at-take, expected_state,
  expected_lines,
}

accepted-Linked :
    (reason : List ℕ) (now : ℕ) (h : EstopHandler) (s : Scheduler)
    → length reason ≤ 160
    → is_empty h.state ≡ true
    → Linked h s
    → Linked (accept_reason reason now h) (mark_estop_triggered_pending s)
unfolding mark_estop_triggered_pending
accepted-Linked reason now h s short e l = record {
  array = record { array_size = l.array.array_size; count_fits = l.array.count_fits };
  state_agrees = ground (arith, l.state_agrees);
  lines_agree = ground (arith, l.lines_agree);
  reason_fits = short;
}

module _ {W : Type 0} (clock : Option (Clock W)) where
  -- A request is accepted exactly when no event is pending and the reason has at most 160 bytes. It
  -- is then pending with that reason; otherwise the handler and the scheduler stay as they were.
  pub request-Linked :
      (reason : CString) (h : EstopHandler) (s : Scheduler) (w : W)
      → Linked h s
      → let (_, h', s', w') = request_estop_triggered reason clock (h, s, w) in Linked h' s'
  unfolding request_estop_triggered mark_estop_triggered_pending bounded_length
  request-Linked none h s w l = elim (Bool-cases (is_empty h.state)) [
    | inl e ↦ rw (e, request_estop_triggered) l
    | inr e ↦ rw (e, request_estop_triggered) l
  ]
  request-Linked (some reason) h s w l = elim (Bool-cases (is_empty h.state)) [
    | inr e ↦ rw (e, request_estop_triggered) l
    | inl e ↦
        rw (e, request_estop_triggered)
          (elim (Bool-cases (ltb 160 (bounded_from 161 reason))) [
            | inl long ↦ rw long l
            | inr short ↦ rw short (
                accepted-Linked reason (read_ms clock w).0 h s
                  (ground (arith, bounded_from_lem 161 reason)) e l)
          ])
  ]

state-enqueue :
    (kind : OutboundKind) (line : LineView) (s : Scheduler)
    → (enqueue_critical kind line s).1.estop_triggered_state ≡ (
        if accepts kind line s && is_estop_triggered kind
        then EstopTriggeredPendingState.in_queue
        else s.estop_triggered_state)
unfolding enqueue_critical
state-enqueue kind line s = ground arith

pub enqueue-Linked :
    (kind : OutboundKind) (line : LineView) (h : EstopHandler) (s : Scheduler)
    → is_estop_triggered kind ≡ false
    → Linked h s
    → Linked h (enqueue_critical kind line s).1
enqueue-Linked kind line h s other l =
    let (valid, _, took, refused) = enqueue_critical_lem kind line s l.array in
    elim (Bool-cases (accepts kind line s)) [
      | inr no_room ↦ rw (refused no_room).0 l
      | inl room ↦ record {
        array = valid;
        state_agrees = ground (arith, state-enqueue kind line s, l.state_agrees);
        lines_agree = ground (
          arith,
          (took room).1,
          triggered-append (queue s) (queued_entry kind line ∷ []),
          l.lines_agree,
        );
        reason_fits = l.reason_fits;
      }
    ]

marked-Linked :
    (h : EstopHandler) (s : Scheduler)
    → h.state ≡ pending_not_queued
    → Linked h s
    → Linked h (mark_estop_triggered_pending s)
unfolding mark_estop_triggered_pending
marked-Linked h s e l = ground (arith, l.array.array_size)

enqueued-Linked :
    (h : EstopHandler) (s : Scheduler)
    → IsValid s
    → s.estop_triggered_state ≡ EstopTriggeredPendingState.in_queue
    → triggered (queue s) ≡ 1
    → length h.reason ≤ 160
    → Linked (record h { state = queued_awaiting_completion }) s
enqueued-Linked h s v e n r = record {
  array = v;
  state_agrees = e;
  lines_agree = n;
  reason_fits = r;
}

after_enqueue-Linked :
    (r : OutboundEnqueueResult) (h : EstopHandler) (s : Scheduler)
    → h.state ≡ pending_not_queued
    → (r ≡ OutboundEnqueueResult.queued
        → Linked (record h { state = queued_awaiting_completion }) s)
    → (r ≢ OutboundEnqueueResult.queued → Linked h s)
    → let (_, h', s') = after_enqueue h (r, s) in Linked h' s'
after_enqueue-Linked OutboundEnqueueResult.queued h s e yes_queued not_queued = yes_queued refl
after_enqueue-Linked OutboundEnqueueResult.invalid_line h s e yes_queued not_queued =
    marked-Linked h s e (not_queued (λ p. cc))
after_enqueue-Linked OutboundEnqueueResult.teardown_requested h s e yes_queued not_queued =
    marked-Linked h s e (not_queued (λ p. cc))

-- The event is built and queued, or stays pending.
enqueue_triggered-Linked :
    (line : List ℕ) (h : EstopHandler) (s : Scheduler)
    → h.state ≡ pending_not_queued
    → Linked h s
    → let (_, h', s') = after_enqueue h (enqueue_critical estop_triggered (some line) s) in
      Linked h' s'
enqueue_triggered-Linked line h s e l =
    let (valid, _, took, refused) = enqueue_critical_lem estop_triggered (some line) s l.array in
    elim (Bool-cases (accepts estop_triggered (some line) s)) [
      | inr no_room ↦
          after_enqueue-Linked _ h _ e (λ q. ground (arith, q, (refused no_room).1))
            (λ _. rw (refused no_room).0 l)
      | inl room ↦
          after_enqueue-Linked _ h _ e
            (λ _.
              enqueued-Linked h _ valid
                (ground (arith, state-enqueue estop_triggered (some line) s))
                (ground (
                  arith,
                  (took room).1,
                  l.lines_agree,
                  triggered-append (queue s) (queued_entry estop_triggered (some line) ∷ []),
                ))
                l.reason_fits)
            (λ q. absurd (q (took room).0))
    ]

pub service-Linked :
    (identity : BoardIdentity) (h : EstopHandler) (s : Scheduler)
    → Linked h s
    → let (_, h', s') = service identity (h, s) in Linked h' s'
unfolding service
service-Linked identity h s l = elim (Bool-cases (is_pending_not_queued h.state)) [
  | inr e ↦ rw (e, service) l
  | inl e ↦
      rw (e, service)
        (elim (Option-cases (build_estop_triggered_line h identity)) [
          | inl n ↦ rw (n, service) l
          | inr (line, n) ↦
              rw (n, service)
                (enqueue_triggered-Linked line h (mark_estop_triggered_pending s) (ground arith)
                  (marked-Linked h s (ground arith) l))
        ])
]

outcome-Linked :
    (k : OutboundKind) (c : OutboundCompletion) (h : EstopHandler) (s : Scheduler)
    → IsValid s
    → s.estop_triggered_state ≡ (
        if is_estop_triggered k
        then EstopTriggeredPendingState.not_pending
        else expected_state h.state)
    → triggered (queue s) + (if is_estop_triggered k then 1 else 0) ≡ expected_lines h.state
    → length h.reason ≤ 160
    → let (h', s') = on_outbound_outcome (record { kind = k; completion = c }) (h, s) in
      Linked h' s'
unfolding on_outbound_outcome mark_estop_triggered_pending
outcome-Linked k c h s v st n r = ground (arith, v.array_size)

-- A drain, with its outcome routed to the handler.
unfoldable pub route_outcome :
    Option OutboundOutcome → EstopHandler × Scheduler → EstopHandler × Scheduler
route_outcome none (h, s) = (h, s)
route_outcome (some o) (h, s) = on_outbound_outcome o (h, s)

module _ {S : Type 0} (send : LineView → MessageClass → S → OutboundSendResult × S) where
  pub drain-Linked :
      (h : EstopHandler) (s : Scheduler) (session : S)
      → Linked h s
      → let (o, s', _) = drain_one send s session in
        let (h'', s'') = route_outcome o (h, s') in Linked h'' s''
  unfolding route_outcome
  drain-Linked h s session l = elim (drain_one_lem send s session l.array) [
    | inr (inr (_, e)) ↦ rw e l
    | inr (inl t) ↦ rw t.outcome (
        outcome-Linked telemetry _ h _ t.valid (ground (arith, t.state_kept, l.state_agrees))
          (ground (arith, t.queue_kept, l.lines_agree)) l.reason_fits)
    | inl d ↦ rw d.outcome (
        outcome-Linked _ _ h _ d.valid (ground (arith, d.state_after, l.state_agrees))
          (ground (
            arith,
            d.rest,
            l.lines_agree,
            triggered-erase_at d.index (queue s),
            entry_at-take d.index s.critical_count s.entries d.first_best.inside,
            length-take s.critical_count s.entries,
            l.array.array_size,
            d.first_best.inside,
          ))
          l.reason_fits)
  ]
