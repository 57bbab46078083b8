-- ===== src/Estop/Linked.antt =====
-- The e-stop event of the handler and its trace in the outbound scheduler agree.
use cuddly_train.Base.{
  ℕ, zero, suc, ◌+◌, ◌≤◌, ◌<◌, ◌≡◌, refl, List, [], ◌∷◌, ◌++◌, arith, length, take, if◌then◌else◌,
}
use cuddly_train.Outbound.{
  EstopTriggeredPendingState, CriticalEntry, Scheduler, entry_at, is_estop_triggered,
}
use cuddly_train.Outbound.Queue.{queue, IsValid, erase_at}
use cuddly_train.Estop.{
  EstopHandler, PendingState, empty, pending_not_queued, queued_awaiting_completion,
}

-- The number of `estop_triggered` lines among the entries.
abbrev pub triggered : List CriticalEntry → ℕ
triggered [] = 0
triggered (e ∷ es) = (if is_estop_triggered e.kind then 1 else 0) + triggered es

-- The state that the scheduler must be in, and the number of lines that it must hold.
abbrev pub expected_state : PendingState → EstopTriggeredPendingState
expected_state empty = EstopTriggeredPendingState.not_pending
expected_state pending_not_queued = EstopTriggeredPendingState.pending_not_queued
expected_state queued_awaiting_completion = EstopTriggeredPendingState.in_queue

abbrev pub expected_lines : PendingState → ℕ
expected_lines queued_awaiting_completion = 1
expected_lines _ = 0

pub record Linked (h : EstopHandler) (s : Scheduler) : Type 0 where
  pub array : IsValid s
  pub state_agrees : s.estop_triggered_state ≡ expected_state h.state
  pub lines_agree : triggered (queue s) ≡ expected_lines h.state
  pub reason_fits : length h.reason ≤ 160

pub triggered-append :
    (xs ys : List CriticalEntry) → triggered (xs ++ ys) ≡ triggered xs + triggered ys
triggered-append [] ys = omega arith
triggered-append (x ∷ xs) ys = omega (arith, triggered-append xs ys)

pub triggered-erase_at :
    (i : ℕ) (es : List CriticalEntry)
    → i < length es
    → triggered (erase_at i es) + (if is_estop_triggered (entry_at es i).kind then 1 else 0)
      ≡ triggered es
unfolding erase_at
triggered-erase_at i [] h = absurd (omega arith)
triggered-erase_at zero (x ∷ xs) h = omega arith
triggered-erase_at (suc i) (x ∷ xs) h = omega (arith, triggered-erase_at i xs (omega arith))

-- An index below the count reads the same in the queue and in the array.
pub entry_at-take :
    (i n : ℕ) (es : List CriticalEntry) → i < n → entry_at (take n es) i ≡ entry_at es i
entry_at-take i zero es h = absurd (omega arith)
entry_at-take i (suc n) [] h = refl
entry_at-take zero (suc n) (x ∷ xs) h = refl
entry_at-take (suc i) (suc n) (x ∷ xs) h = entry_at-take i n xs (omega arith)
