-- ===== src/Loop/Engine/Rounds.antt =====
-- The rounds of src/core/ServiceLoop.h.
use cuddly_train.Base.{
  ℕ, ◌≡◌, refl, Bool, true, false, not, ◌&&◌, List, Option, some, none, if◌then◌else◌, is_some,
}
use cuddly_train.Platform.{Clock}
use cuddly_train.Protocol.{BoardIdentity}
use cuddly_train.Inbound.{JsonLibrary}
use cuddly_train.Outbound.{has_pending}
use cuddly_train.Loop.{
  SessionLike, Loop, Routes, telemetry_session_active, run_telemetry_due_check,
  run_safety_due_check, service_line, unless_returned, service_outbound, unless_torn, torn_if,
  safety_checked, service, process_line, on_session,
}
use cuddly_train.Loop.Engine.{Holds, Kept, Quiet, kept-if, IsKept}
use cuddly_train.Loop.Engine.Outcomes.{cancel-Quiet, drain-Quiet, release-Kept, call-Kept}
use cuddly_train.Loop.Engine.Lines.{line-Kept}

module _ {S V C Double Float : Type 0} (driver : SessionLike S) (lib : JsonLibrary V Double Float)
    (deserialize_copy : ℕ → List ℕ → Option V) (identity : BoardIdentity)
    (routes : Routes (Loop S V C) Double) (clock : Option (Clock (Loop S V C)))
    (Before Inv : S → Type 0)
    (law : IsKept driver lib deserialize_copy identity routes clock Before Inv) where
  service_line-Quiet :
      (line : Option (List ℕ)) (drained : Bool) (e : Loop S V C)
      → Quiet driver Inv e
      → Quiet driver Inv
          (service_line driver lib deserialize_copy identity routes clock line drained e)
  unfolding service_line
  service_line-Quiet none drained e q = q
  service_line-Quiet (some line) drained e (k, q) =
      let e' =
        on_session driver lib deserialize_copy identity routes clock driver.release_line
          (process_line driver lib deserialize_copy identity routes clock line e) in
      let k' : Kept Inv e' =
        law.released _
          (line-Kept driver lib deserialize_copy identity routes clock Before Inv law line e k) in
      kept-if (Quiet driver Inv) (driver.teardown_pending e'.session) _ _
        (λ h. cancel-Quiet driver lib deserialize_copy identity routes clock Before Inv law e' k')
        (λ n.
          kept-if (Quiet driver Inv) (not drained && has_pending e'.scheduler) _ _
            (λ h.
              drain-Quiet driver lib deserialize_copy identity routes clock Before Inv law false e'
                (k', n))
            (λ h. (k', n)))

  unless_returned-Quiet :
      (line : Option (List ℕ)) (out : Bool × Loop S V C)
      → Quiet driver Inv out.1
      → Quiet driver Inv
          (unless_returned driver lib deserialize_copy identity routes clock line out)
  unless_returned-Quiet line (true, e) q = q
  unless_returned-Quiet line (false, e) q = service_line-Quiet line true e q

  outbound-Quiet :
      (line : Option (List ℕ)) (e : Loop S V C)
      → Quiet driver Inv e
      → Quiet driver Inv (service_outbound driver lib deserialize_copy identity routes clock line e)
  unfolding service_outbound
  outbound-Quiet line e q =
      kept-if (Quiet driver Inv) (has_pending e.scheduler) _ _
        (λ h. unless_returned-Quiet line _ (
          drain-Quiet driver lib deserialize_copy identity routes clock Before Inv law
            (is_some line) e q))
        (λ h. service_line-Quiet line false e q)

  due-Quiet :
      (e : Loop S V C)
      → Quiet driver Inv e
      → Quiet driver Inv
          (run_telemetry_due_check driver lib deserialize_copy identity routes clock e)
  unfolding run_telemetry_due_check
  due-Quiet e q =
      kept-if (Quiet driver Inv)
        (telemetry_session_active driver lib deserialize_copy identity routes clock e) _ _
        (λ h.
          call-Kept driver lib deserialize_copy identity routes clock Before Inv law
            routes.telemetry_due (Quiet driver Inv) e law.due_quiet q)
        (λ h.
          call-Kept driver lib deserialize_copy identity routes clock Before Inv law
            routes.telemetry_inactive (Quiet driver Inv) e law.inactive_quiet q)

  -- What a check leaves: kept, and quiet unless it has asked for a teardown.
  abbrev Checked : Bool × Loop S V C → Type 0
  Checked (torn, e) = Kept Inv e × (torn ≡ false → Quiet driver Inv e)

  torn_if-Checked :
      (out : Bool × Loop S V C)
      → Quiet driver Inv out.1
      → Checked (torn_if driver lib deserialize_copy identity routes clock out)
  torn_if-Checked (true, e) (k, q) = (law.requested _ e.session k, λ h. absurd (true≢false h))
    where
      true≢false : (true ≡ false) → ⊥
      true≢false h = cc
  torn_if-Checked (false, e) q = (q.0, λ h. q)

  safety-Checked :
      (due : Option (Loop S V C → Bool × Loop S V C)) (e : Loop S V C)
      → Holds
          (λ (f : Loop S V C → Bool × Loop S V C).
            (e : Loop S V C) → Quiet driver Inv e → Quiet driver Inv (f e).1)
          due
      → Quiet driver Inv e
      → Checked (safety_checked driver lib deserialize_copy identity routes clock due e)
  safety-Checked none e h q = (q.0, λ h. q)
  safety-Checked (some route) e h q =
      checked-if
        (not (telemetry_session_active driver lib deserialize_copy identity routes clock e)) _
        (torn_if-Checked (route e) (h e q))
    where
      checked-if :
          (b : Bool) (out : Bool × Loop S V C)
          → Checked out
          → Checked (if b then (false, e) else out)
      checked-if true out c = (q.0, λ h. q)
      checked-if false out c = c

  unless_torn-Quiet :
      (line : Option (List ℕ)) (out : Bool × Loop S V C)
      → Checked out
      → Quiet driver Inv (unless_torn driver lib deserialize_copy identity routes clock line out)
  unless_torn-Quiet line (true, e) (k, q) =
      cancel-Quiet driver lib deserialize_copy identity routes clock Before Inv law e k
  unless_torn-Quiet line (false, e) (k, q) = outbound-Quiet line e (q refl)

  -- For a session whose operations, and routes that, keep an invariant of it, where an applied teardown is
  -- over and the checks that are due ask for one by their result alone: a round that starts between two
  -- rounds, whatever line it receives, keeps the invariant and ends with no teardown that is requested
  -- and not applied, also if the drain, a route or the line has requested it.
  pub service-Quiet :
      (e : Loop S V C)
      → Before e.session
      → Quiet driver Inv (service driver lib deserialize_copy identity routes clock e)
  unfolding service run_safety_due_check
  service-Quiet e b =
      let (line, session) = driver.next_line (driver.poll e.session) in
      let e₁ : Loop S V C = record e { session = session } in
      let k : Kept Inv e₁ = law.lined _ (law.polled e.session b) in
      kept-if (Quiet driver Inv) (driver.teardown_pending session) _ _
        (λ h. cancel-Quiet driver lib deserialize_copy identity routes clock Before Inv law _ (
          release-Kept driver lib deserialize_copy identity routes clock Before Inv law
            (is_some line) e₁ k))
        (λ n.
          unless_torn-Quiet line _
            (safety-Checked routes.safety_due _ law.safety_quiet (due-Quiet e₁ (k, n))))
