-- ===== src/Outbound/Drain.antt =====
-- What one drain does: which line goes to the session, and what is left.
use mathlib.Core.Logic.{◌⊎◌}
use cuddly_train.Base.{
  ℕ, ◌+◌, ◌<◌, ◌≡◌, inl, inr, refl, true, false, Option, some, none, arith, if◌then◌else◌,
  Bool-cases,
}
use cuddly_train.Wire.{LineView, MessageClass, OutboundSendResult}
use cuddly_train.Outbound.{
  OutboundOutcome, Scheduler, entry_at, remove_critical, drain_one, completion_for, telemetry,
  is_estop_triggered, EstopTriggeredPendingState, has_pending,
}
use cuddly_train.Outbound.Queue.{
  queue, IsValid, erase_at, queue-remove_critical, remove_critical-IsValid,
}
use cuddly_train.Outbound.Select.{IsFirstBest, select_critical_index_lem}

module _ {ℓ} {S : Type ℓ} (send : LineView → MessageClass → S → OutboundSendResult × S) where
  -- A critical line was sent: the most urgent one, and the oldest of its priority.
  pub record SentCritical (s : Scheduler) (session : S)
      (out : Option OutboundOutcome × Scheduler × S) : Type ℓ where
    pub index : ℕ
    pub first_best : IsFirstBest s.entries s.critical_count index
    pub outcome :
        out.0
        ≡ some (record {
          kind = (entry_at s.entries index).kind;
          completion =
              completion_for
                (send (some (entry_at s.entries index).bytes) MessageClass.critical session).0;
        })
    pub session_after :
        out.2 ≡ (send (some (entry_at s.entries index).bytes) MessageClass.critical session).1
    pub rest : queue out.1 ≡ erase_at index (queue s)
    pub fewer : out.1.critical_count + 1 ≡ s.critical_count
    pub state_after : out.1.estop_triggered_state ≡ (
        if is_estop_triggered (entry_at s.entries index).kind
        then EstopTriggeredPendingState.not_pending
        else s.estop_triggered_state)
    pub telemetry_kept : out.1.telemetry_active ≡ s.telemetry_active
    pub valid : IsValid out.1

  pub record SentTelemetry (s : Scheduler) (session : S)
      (out : Option OutboundOutcome × Scheduler × S) : Type ℓ where
    pub no_critical : s.critical_count ≡ 0
    pub waiting : s.telemetry_active ≡ true
    pub outcome :
        out.0
        ≡ some (record {
          kind = telemetry;
          completion =
              completion_for (send (some s.telemetry_bytes) MessageClass.telemetry session).0;
        })
    pub session_after : out.2 ≡ (send (some s.telemetry_bytes) MessageClass.telemetry session).1
    pub queue_kept : queue out.1 ≡ queue s
    pub state_kept : out.1.estop_triggered_state ≡ s.estop_triggered_state
    pub emptied : has_pending out.1 ≡ false
    pub valid : IsValid out.1

  kept-remove_critical :
      (i : ℕ) (s : Scheduler)
      → i < s.critical_count
      → ((remove_critical i s).critical_count + 1 ≡ s.critical_count)
        × ((remove_critical i s).telemetry_active ≡ s.telemetry_active)
        × ((remove_critical i s).estop_triggered_state ≡ (
            if is_estop_triggered (entry_at s.entries i).kind
            then EstopTriggeredPendingState.not_pending
            else s.estop_triggered_state))
  unfolding remove_critical
  kept-remove_critical i s h = ground arith

  -- On a valid scheduler, a drain sends the most urgent critical line, the oldest of its priority; telemetry only when no
  -- critical line waits; and nothing only when nothing waits. The line that was handed to the
  -- session is removed whatever the session answers, and its outcome reports the answer.
  pub drain_one_lem :
      (s : Scheduler) (session : S)
      → IsValid s
      → SentCritical s session (drain_one send s session)
        ⊎ SentTelemetry s session (drain_one send s session)
        ⊎ ((has_pending s ≡ false) × (drain_one send s session ≡ (none, s, session)))
  unfolding drain_one has_pending
  drain_one_lem s session v = elim (select_critical_index_lem s) [
    | inl (zero_count, e) ↦
        rw (e, drain_one)
          (elim (Bool-cases s.telemetry_active) [
            | inl t ↦ inr (
                inl (record {
                  no_critical = zero_count;
                  waiting = t;
                  outcome = ground arith;
                  session_after = ground arith;
                  queue_kept = ground arith;
                  state_kept = ground arith;
                  emptied = ground arith;
                  valid = ground (arith, v.array_size);
                }))
            | inr t ↦ inr (inr (ground arith, ground arith))
          ])
    | inr (i, e, best) ↦
        rw (e, drain_one)
          (inl (record {
            index = i;
            first_best = best;
            outcome = refl;
            session_after = refl;
            rest = queue-remove_critical i s v best.inside;
            fewer = (kept-remove_critical i s best.inside).0;
            state_after = (kept-remove_critical i s best.inside).2;
            telemetry_kept = (kept-remove_critical i s best.inside).1;
            valid = remove_critical-IsValid i s v;
          }))
  ]
