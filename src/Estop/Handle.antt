-- ===== src/Estop/Handle.antt =====
-- The controller's e-stop: when it is acknowledged.
use cuddly_train.Base.{
  ℕ, ◌≤◌, ◌<◌, ◌≡◌, ◌∙◌, sym, ap, arith, inl, inr, Bool-cases, if◌then◌else◌, refl, Bool, true,
  false, List, [], ◌∷◌, ◌++◌, Option, some, none, codes, length,
}
use cuddly_train.Counters.{Counters, bump, increment, estop_received, estop_apply_failed}
use cuddly_train.Platform.{Clock, read_ms, read_us}
use cuddly_train.Protocol.{BoardIdentity}
use cuddly_train.Json.Value.{render}
use cuddly_train.Outbound.{Scheduler, enqueue_critical, estop_ack, queued, teardown_requested}
use cuddly_train.Outbound.Queue.{queue, queued_entry, IsValid}
use cuddly_train.Outbound.Accepted.{IsLine, IsCritical, enqueue_critical-IsCritical}
use cuddly_train.Heartbeat.{not_queued}
use cuddly_train.Estop.{handle_estop, acknowledge, run_hook}
use cuddly_train.Estop.Text.{event_value, event_value-length, build_estop_ack_line_lem}

-- The line of the acknowledgement.
abbrev pub ack_line : ℕ → List ℕ → List ℕ
ack_line now id =
    render (event_value (codes "estop_ack") now id (codes "state") (codes "safe")) ++ (b'\n' ∷ [])

module _ {W : Type 0} (clock : Option (Clock W)) (identity : BoardIdentity) where
  handle_estop-unsafe :
      (hook : W → Bool × W) (s : Scheduler) (c : Counters) (w : W)
      → (run_hook clock hook (increment estop_received c, w)).0 ≡ false
      → let (_, c', w') = run_hook clock hook (increment estop_received c, w) in
        handle_estop clock (some hook) identity (s, c, w)
        ≡ (false, s, increment estop_apply_failed c', w')
  unfolding handle_estop
  handle_estop-unsafe hook s c w h = rw h refl

  acknowledge_lem :
      (id : List ℕ) (s : Scheduler) (c : Counters) (w : W)
      → identity.board_id ≡ some id
      → length id ≤ 48
      → let (now, w') = read_ms clock w in
        let (result, s') = enqueue_critical estop_ack (some (ack_line now id)) s in
        acknowledge clock identity (s, c, w) ≡ (not_queued result, s', c, w')
  unfolding acknowledge
  acknowledge_lem id s c w e hi =
      rw (build_estop_ack_line_lem (read_ms clock w).0 id identity e hi, acknowledge) refl

  -- Once the hook reports the safe state, on a board whose name has at most 48 bytes, exactly the acknowledgement with the state `safe` is handed
  -- to the scheduler, and the session is to be torn down exactly if the scheduler does not take it.
  pub handle_estop-safe :
      (id : List ℕ) (hook : W → Bool × W) (s : Scheduler) (c : Counters) (w : W)
      → identity.board_id ≡ some id
      → length id ≤ 48
      → (run_hook clock hook (increment estop_received c, w)).0 ≡ true
      → let (_, c', w') = run_hook clock hook (increment estop_received c, w) in
        let (now, w'') = read_ms clock w' in
        let (result, s') = enqueue_critical estop_ack (some (ack_line now id)) s in
        handle_estop clock (some hook) identity (s, c, w) ≡ (not_queued result, s', c', w'')
  unfolding handle_estop
  handle_estop-safe id hook s c w e hi h =
      let (_, c', w') = run_hook clock hook (increment estop_received c, w) in
      rw h (acknowledge_lem id s c' w' e hi)

  -- What the hook reports, which runs behind a reading of the clock; a hook that is not there reports
  -- nothing.
  abbrev pub reports_safe : Option (W → Bool × W) → W → Bool
  reports_safe none w = false
  reports_safe (some hook) w = (hook (read_us clock w).1).0

  -- An e-stop is answered: the acknowledgement stands behind all lines that wait.
  abbrev pub Acknowledges : List ℕ → Scheduler → Scheduler → Type 0
  Acknowledges id s s' =
      (now : ℕ) × (queue s' ≡ queue s ++ (queued_entry estop_ack (some (ack_line now id)) ∷ []))

  run_hook_lem :
      (hook : W → Bool × W) (c : Counters) (w : W)
      → let (safe, c', w') = run_hook clock hook (increment estop_received c, w) in
        (safe ≡ reports_safe (some hook) w)
        × (c'.estop_received ≡ bump c.estop_received)
        × (c'.estop_apply_failed ≡ c.estop_apply_failed)
  unfolding run_hook increment
  run_hook_lem hook c w = ground arith

  ack_line-IsLine : (now : ℕ) (id : List ℕ) → length id ≤ 48 → IsLine (some (ack_line now id))
  ack_line-IsLine now id h = record {
    text = render (event_value (codes "estop_ack") now id (codes "state") (codes "safe"));
    ends = refl;
    short = omega (
      arith,
      event_value-length (codes "estop_ack") now id (codes "state") (codes "safe") (omega arith) h
          (omega arith) (omega arith),
    );
  }

  -- What a handled e-stop leaves, by what the hook has reported.
  pub record Handled (id : List ℕ) (safe : Bool) (s : Scheduler) (c : Counters)
      (out : Bool × Scheduler × Counters × W) : Type 0 where
    pub still_valid : IsValid out.1
    pub received : out.2.estop_received ≡ bump c.estop_received
    pub failed :
        out.2.estop_apply_failed
        ≡ (if safe then c.estop_apply_failed else bump c.estop_apply_failed)
    pub unanswered : safe ≡ false → (out.0 ≡ false) × (out.1 ≡ s)
    pub answered : safe ≡ true → s.critical_count < 4 → (out.0 ≡ false) × Acknowledges id s (out.1)
    pub no_room : safe ≡ true → 4 ≤ s.critical_count → (out.0 ≡ true) × (out.1 ≡ s)

  unsafe-Handled :
      (id : List ℕ) (s : Scheduler) (c c' : Counters) (w : W)
      → IsValid s
      → c'.estop_received ≡ bump c.estop_received
      → c'.estop_apply_failed ≡ c.estop_apply_failed
      → Handled id false s c (false, s, increment estop_apply_failed c', w)
  unfolding increment
  unsafe-Handled id s c c' w v r f = record {
    still_valid = v;
    received = r;
    failed = ap bump f;
    unanswered = λ h. (refl, refl);
    answered = λ h k. cc;
    no_room = λ h k. cc;
  }

  safe-Handled :
      (id : List ℕ) (now : ℕ) (s : Scheduler) (c c' : Counters) (w : W)
      → IsValid s
      → length id ≤ 48
      → c'.estop_received ≡ bump c.estop_received
      → c'.estop_apply_failed ≡ c.estop_apply_failed
      → let (result, s') = enqueue_critical estop_ack (some (ack_line now id)) s in
        Handled id true s c (not_queued result, s', c', w)
  safe-Handled id now s c c' w v hi r f =
      let line = some (ack_line now id) in
      let (valid, _, taken, torn, grown, kept) = enqueue_critical-IsCritical estop_ack line s v in
      let critical : IsCritical estop_ack line = ((λ e. cc), ack_line-IsLine now id hi) in
      record {
        still_valid = valid;
        received = r;
        failed = f;
        unanswered = λ h. cc;
        answered = λ h k. let q = taken.1 (critical, k) in (ap not_queued q, (now, grown q));
        no_room =
            λ h k. let t = torn.1 (critical, k) in (ap not_queued t, kept (λ q. clash (sym q ∙ t)));
      }
    where
      clash : (queued ≡ teardown_requested) → ⊥
      clash e = cc

  hooked-Handled :
      (id : List ℕ) (hook : W → Bool × W) (s : Scheduler) (c : Counters) (w : W)
      → IsValid s
      → identity.board_id ≡ some id
      → length id ≤ 48
      → Handled id
          (reports_safe (some hook) w)
          s
          c
          (handle_estop clock (some hook) identity (s, c, w))
  hooked-Handled id hook s c w v e hi =
      let (same, r, f) = run_hook_lem hook c w in
      let (_, c', w') = run_hook clock hook (increment estop_received c, w) in
      let (now, w'') = read_ms clock w' in
      elim (Bool-cases (reports_safe (some hook) w)) [
        | inl safe ↦
            rw (safe, handle_estop-safe id hook s c w e hi (same ∙ safe))
              (safe-Handled id now s c c' w'' v hi r f)
        | inr unsafe ↦
            rw (unsafe, handle_estop-unsafe hook s c w (same ∙ unsafe))
              (unsafe-Handled id s c c' w' v r f)
      ]

  -- On a valid scheduler and a board whose name has at most 48 bytes, an e-stop is acknowledged exactly
  -- if the hook is there and reports the safe state and a place is free: the acknowledgement then
  -- stands behind all lines that wait. If the hook does not report it, nothing is queued, no teardown
  -- is asked for and the failure is counted; if only the place is missing, nothing is queued and a
  -- teardown is asked for.
  pub handle_estop-Handled :
      (id : List ℕ) (hook : Option (W → Bool × W)) (s : Scheduler) (c : Counters) (w : W)
      → IsValid s
      → identity.board_id ≡ some id
      → length id ≤ 48
      → Handled id (reports_safe hook w) s c (handle_estop clock hook identity (s, c, w))
  unfolding handle_estop increment
  handle_estop-Handled id none s c w v e hi =
      unsafe-Handled id s c (increment estop_received c) w v refl refl
  handle_estop-Handled id (some hook) s c w v e hi = hooked-Handled id hook s c w v e hi
