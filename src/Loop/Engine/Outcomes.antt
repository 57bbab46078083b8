-- ===== src/Loop/Engine/Outcomes.antt =====
-- Outbound outcomes and the drain of src/core/ServiceLoop.h.
use cuddly_train.Base.{
  ℕ, ◌≡◌, refl, ap, ◌∙◌, Bool, true, false, not, ◌&&◌, ◌||◌, List, [], ◌∷◌, Option, some, none,
  if◌then◌else◌,
}
use cuddly_train.Counters.{Field}
use cuddly_train.Platform.{Clock}
use cuddly_train.Protocol.{BoardIdentity}
use cuddly_train.Inbound.{JsonLibrary}
use cuddly_train.Outbound.{
  OutboundOutcome, OutboundKind, is_telemetry, drain_one, clear_for_session_end, telemetry,
  estop_ack, heartbeat_ack, estop_triggered, command_response,
}
use cuddly_train.Loop.{
  SessionLike, Loop, Routes, is_sent, is_send_failed, call_if, count_sent, route_outcome, route_all,
  cancel_route_and_apply, after_drain, drain_route_and_maybe_teardown, release_if, count,
  tear_down_if,
}
use cuddly_train.Loop.Engine.{
  Holds, Kept, Quiet, kept-if, IsKept, drain_one-none, drain_one-keeps, or_left,
}

module _ {S V C Double Float : Type 0} (driver : SessionLike S) (lib : JsonLibrary V Double Float)
    (deserialize_copy : ℕ → List ℕ → Option V) (identity : BoardIdentity)
    (routes : Routes (Loop S V C) Double) (clock : Option (Clock (Loop S V C)))
    (Before Inv : S → Type 0)
    (law : IsKept driver lib deserialize_copy identity routes clock Before Inv) where
  pub count-Kept :
      (field : Field) (e : Loop S V C)
      → Kept Inv e
      → Kept Inv (count driver lib deserialize_copy identity routes clock field e)
  count-Kept field e k = law.counted _ e.session k

  pub torn-Kept :
      (out : Bool × Loop S V C)
      → Kept Inv out.1
      → Kept Inv (tear_down_if driver lib deserialize_copy identity routes clock out)
  torn-Kept (true, e) k = law.requested _ e.session k
  torn-Kept (false, e) k = k

  sent-Kept :
      (kind : OutboundKind) (e : Loop S V C)
      → Kept Inv e
      → Kept Inv (count_sent driver lib deserialize_copy identity routes clock kind e)
  sent-Kept telemetry e k = count-Kept _ e k
  sent-Kept estop_ack e k = count-Kept _ e k
  sent-Kept heartbeat_ack e k = count-Kept _ e k
  sent-Kept estop_triggered e k = k
  sent-Kept command_response e k = k

  route-Kept :
      (route : Option (OutboundOutcome → Loop S V C → Loop S V C)) (o : OutboundOutcome)
      (e : Loop S V C)
      → Holds
          (λ (f : OutboundOutcome → Loop S V C → Loop S V C).
            (x : OutboundOutcome) (e : Loop S V C) → Kept Inv e → Kept Inv (f x e))
          route
      → Kept Inv e
      → Kept Inv (elim route [ none ↦ e | some f ↦ f o e ])
  route-Kept none o e h k = k
  route-Kept (some f) o e h k = h o e k

  outcome-Kept :
      (o : OutboundOutcome) (e : Loop S V C)
      → Kept Inv e
      → Kept Inv (route_outcome driver lib deserialize_copy identity routes clock o e)
  unfolding route_outcome
  outcome-Kept o e k =
      route-Kept routes.outbound_outcome o _ law.outcome
        (kept-if (Kept Inv) (is_sent o.completion) _ e (λ h. sent-Kept o.kind e k) (λ h. k))

  all-Kept :
      (os : List OutboundOutcome) (e : Loop S V C)
      → Kept Inv e
      → Kept Inv (route_all driver lib deserialize_copy identity routes clock os e)
  unfolding route_all
  all-Kept [] e k = k
  all-Kept (o ∷ os) e k = all-Kept os _ (outcome-Kept o e k)

  pub call-Kept :
      (route : Option (Loop S V C → Loop S V C)) (P : Loop S V C → Type 0) (e : Loop S V C)
      → Holds (λ (f : Loop S V C → Loop S V C). (e : Loop S V C) → P e → P (f e)) route
      → P e
      → P (call_if driver lib deserialize_copy identity routes clock route e)
  call-Kept none P e h k = k
  call-Kept (some f) P e h k = h e k

  pub cancel-Quiet :
      (e : Loop S V C)
      → Kept Inv e
      → Quiet driver Inv
          (cancel_route_and_apply driver lib deserialize_copy identity routes clock e)
  unfolding cancel_route_and_apply
  cancel-Quiet e k = law.applied _ (
      call-Kept routes.telemetry_inactive (Kept Inv) _ law.inactive
        (all-Kept (clear_for_session_end e.scheduler).0 _ k))

  pub release-Kept :
      (b : Bool) (e : Loop S V C)
      → Kept Inv e
      → Kept Inv (release_if driver lib deserialize_copy identity routes clock b e)
  release-Kept true e k = law.released e.session k
  release-Kept false e k = k

  Quiet-pair :
      (b : Bool) (x y : Loop S V C)
      → Quiet driver Inv x
      → (b ≡ false → Quiet driver Inv y)
      → (let out : Bool × Loop S V C = if b then (true, x) else (false, y) in
          Quiet driver Inv out.1)
  Quiet-pair true x y p q = p
  Quiet-pair false x y p q = q refl

  after_drain-Quiet :
      (acquired : Bool) (o : Option OutboundOutcome) (e : Loop S V C)
      → Kept Inv e
      → (o ≡ none → driver.teardown_pending e.session ≡ false)
      → Quiet driver Inv
          (after_drain driver lib deserialize_copy identity routes clock acquired o e).1
  after_drain-Quiet acquired none e k q = (k, q refl)
  after_drain-Quiet acquired (some o) e k q =
      let e₁ = route_outcome driver lib deserialize_copy identity routes clock o e in
      let k₁ = outcome-Kept o e k in
      let failed = is_send_failed o.completion && not (is_telemetry o.kind) in
      Quiet-pair (driver.teardown_pending e₁.session || failed) _ e₁
        (cancel-Quiet _ (
          release-Kept acquired _ (
            kept-if (Kept Inv) (driver.teardown_pending e₁.session) e₁ _ (λ h. k₁)
              (λ h. law.requested _ _ k₁))))
        (λ n. (k₁, or_left (driver.teardown_pending e₁.session) failed n))

  pub drain-Quiet :
      (acquired : Bool) (e : Loop S V C)
      → Quiet driver Inv e
      → Quiet driver Inv
          (drain_route_and_maybe_teardown driver lib deserialize_copy identity routes clock acquired
            e).1
  unfolding drain_route_and_maybe_teardown
  drain-Quiet acquired e (k, q) =
      let (outcome, scheduler, session) = drain_one driver.send_active_line e.scheduler e.session in
      after_drain-Quiet acquired outcome (record e { scheduler = scheduler; session = session })
        (drain_one-keeps driver.send_active_line Inv e.scheduler e.session k
          (λ line m. law.sent line m e.session k))
        (λ n.
          ap driver.teardown_pending
            (drain_one-none driver.send_active_line e.scheduler e.session n)
          ∙ q)
