-- ===== src/Outbound/Cancel.antt =====
-- The end of a session: every line that waits is reported as canceled.
use mathlib.Core.List.{append_assoc, append-nil}
use cuddly_train.Base.{
  ℕ, zero, suc, ◌+◌, ◌≤◌, ◌≡◌, ◌∙◌, ap, refl, Bool, false, List, [], ◌∷◌, ◌++◌, arith,
  if◌then◌else◌, ◌||◌, length, take, length-append, length-take,
}
use cuddly_train.Outbound.{
  OutboundOutcome, EstopTriggeredPendingState, pending_not_queued, CriticalEntry, Scheduler,
  canceled, telemetry, batch_append, cancel_from, clear_for_session_end, is_estop_triggered,
  has_pending,
}
use cuddly_train.Outbound.Queue.{queue, IsValid}

abbrev pub cancellations : List CriticalEntry → List OutboundOutcome
cancellations [] = []
cancellations (e ∷ es) = canceled e.kind ∷ cancellations es

-- Whether an `estop_triggered` line is among the entries.
abbrev pub holds_triggered : List CriticalEntry → Bool
holds_triggered [] = false
holds_triggered (e ∷ es) = is_estop_triggered e.kind || holds_triggered es

length-cancellations : (es : List CriticalEntry) → length (cancellations es) ≡ length es
length-cancellations [] = refl
length-cancellations (e ∷ es) = ap suc (length-cancellations es)

cancel_from-cons :
    (n i : ℕ) (x : CriticalEntry) (es : List CriticalEntry)
    (acc : List OutboundOutcome × EstopTriggeredPendingState)
    → cancel_from n (suc i) (x ∷ es) acc ≡ cancel_from n i es acc
unfolding cancel_from
cancel_from-cons zero i x es (b, st) = refl
cancel_from-cons (suc n) i x es (b, st) = cancel_from-cons n (suc i) x es _

batch_append-room :
    (o : OutboundOutcome) (batch : List OutboundOutcome)
    → length batch ≤ 4
    → batch_append o batch ≡ batch ++ (o ∷ [])
batch_append-room o batch h = ground arith

cancel_from_lem :
    (n : ℕ) (es : List CriticalEntry) (batch : List OutboundOutcome)
    (st : EstopTriggeredPendingState)
    → n ≤ length es
    → length batch + n ≤ 5
    → cancel_from n 0 es (batch, st) ≡ (
      batch ++ cancellations (take n es),
      if holds_triggered (take n es) then pending_not_queued else st,
    )
unfolding cancel_from
cancel_from_lem zero es batch st h k = ground (arith, append-nil batch)
cancel_from_lem (suc n) [] batch st h k = absurd (omega arith)
cancel_from_lem (suc n) (e ∷ es) batch st h k =
    let c = canceled e.kind in
    let st' = (if is_estop_triggered e.kind then pending_not_queued else st) in
    ap (λ b. cancel_from n 1 (e ∷ es) (b, st')) (batch_append-room c batch (omega arith))
    ∙ cancel_from-cons n 0 e es (batch ++ (c ∷ []), st')
    ∙ cancel_from_lem n es (batch ++ (c ∷ [])) st' (omega arith)
        (omega (arith, length-append batch (c ∷ [])))
    ∙ ground (arith, append_assoc batch (c ∷ []) (cancellations (take n es)))

-- At the end of a session, on a valid scheduler, every line that waits is reported once as canceled, the critical ones in
-- their order and then the telemetry line; the batch of five is never too short. Nothing waits
-- afterwards, and an `estop_triggered` line that was queued is marked as pending again.
pub clear_for_session_end_lem :
    (s : Scheduler)
    → IsValid s
    → let (batch, s') = clear_for_session_end s in
      (batch
        ≡ cancellations (queue s) ++ (if s.telemetry_active then canceled telemetry ∷ [] else []))
      × (has_pending s' ≡ false)
      × (queue s' ≡ [])
      × (s'.estop_triggered_state
          ≡ (if holds_triggered (queue s) then pending_not_queued else s.estop_triggered_state))
      × IsValid s'
unfolding clear_for_session_end has_pending
clear_for_session_end_lem s v =
    let loop =
      cancel_from_lem s.critical_count s.entries [] s.estop_triggered_state
        (omega (arith, v.array_size)) (omega arith) in
    (
      ground (
        arith,
        loop,
        length-cancellations (queue s),
        length-take s.critical_count s.entries,
        append-nil (cancellations (queue s)),
      ),
      refl,
      refl,
      ground (arith, loop),
      ground arith,
    )
