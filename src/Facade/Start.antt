-- ===== src/Facade/Start.antt =====
-- `start` of src/TeensyCommandServer.h.
use cuddly_train.Base.{
  ℕ, ◌≡◌, ◌⊎◌, inl, inr, ◌∙◌, sym, refl, ap, Bool, true, false, not, ◌||◌, Option, some, arith,
  is_some, Bool-cases,
}
use cuddly_train.Status.{is_ok}
use cuddly_train.Platform.{Clock, Network}
use cuddly_train.Framer.Invariant.{init-IsValid}
use cuddly_train.Session.{Session, transition_to}
use cuddly_train.Session.Driver.{begin}
use cuddly_train.Session.Teardown.{IsSettled}
use cuddly_train.Registry.{is_sealed, sealed, commit_seal, validate_metadata_for_seal, ok_status}
use cuddly_train.Schema.{
  build_schema_line, build_schema_line_with_timestamp, write_schema_object,
  validate_maximum_schema_size,
}
use cuddly_train.Schema.Bounds.{validate_maximum_schema_size_lem}
use cuddly_train.Telemetry.{Telemetry}
use cuddly_train.Facade.{Facade, Board, registry_identity, identity_of}
use cuddly_train.Facade.Launch.{schema_for, start, launch}

module _ {V W : Type 0} (clock : Clock W) (network : Network W) (fuel : ℕ) where
  -- What a start leaves.
  pub record IsStarted (before after : Facade V W) : Type 0 where
    pub was_mutable : is_sealed before.registry.lifecycle ≡ false
    pub configured : before.network_config_set ≡ true
    pub identity_set : before.registry.identity_set ≡ true
    pub provider_set : is_some before.registry.telemetry_provider ≡ true
    pub estop_hook_set : is_some before.registry.estop_hook ≡ true
    pub loss_hook_set : is_some before.registry.controller_loss_hook ≡ true
    pub runs : after.started ≡ true
    pub registry_sealed : after.registry ≡ record before.registry { lifecycle = sealed }
    pub identity_is : identity_of after ≡ registry_identity before.registry
    pub schema_builds : (w : W) → is_some (schema_for clock network fuel after.registry w).0 ≡ true
    pub attached_same : after.attached ≡ before.attached
    pub session_sound :
        after.attached ≡ true
        → (s : Session) × (after.session ≡ some s) × IsSettled s × (s.counters ≡ before.counters)
    pub otherwise_none : after.attached ≡ false → after.session ≡ before.session

  schema_for-sealed :
      (r : Board V W) (w : W)
      → is_ok (validate_maximum_schema_size r (registry_identity r)) ≡ true
      → is_some (schema_for clock network fuel (record r { lifecycle = sealed }) w).0 ≡ true
  unfolding schema_for build_schema_line build_schema_line_with_timestamp write_schema_object
  schema_for-sealed r w h =
      ap (λ out. is_some out.0.1)
        (validate_maximum_schema_size_lem r r.board_id r.protocol_version r.firmware_version clock w
          h)

  begin-IsSettled :
      (f : Facade V W) (w : W)
      → let r = f.registry in
        let port = f.network_config.listen_port in
        let (f', w') = launch clock network fuel (f, w) in
        (s : Session) × (f'.session ≡ some s) × IsSettled s × (s.counters ≡ f.counters)
  unfolding begin transition_to
  begin-IsSettled f w = (
    _,
    refl,
    (
      record {
        set_up = refl;
        framer_valid = init-IsValid;
        bound = refl;
        in_session = refl;
        pending = refl;
        at_rest = refl;
        replacement = λ h. refl;
      },
      refl,
    ),
    refl,
  )

  -- What a registry has that the checks for a seal accept.
  metadata-set_up :
      (r : Board V W)
      → is_ok (validate_metadata_for_seal r) ≡ true
      → (r.identity_set ≡ true)
        × (is_some r.telemetry_provider ≡ true)
        × (is_some r.estop_hook ≡ true)
        × (is_some r.controller_loss_hook ≡ true)
  unfolding validate_metadata_for_seal
  metadata-set_up r h = ground (arith, h)

  -- All that a start asks for: a mutable registry with an identity, a provider, the two hooks and a
  -- schema that fits, and a configured network.
  pub record IsSetUp (f : Facade V W) : Type 0 where
    pub unsealed : is_sealed f.registry.lifecycle ≡ false
    pub configured_network : f.network_config_set ≡ true
    pub identity : f.registry.identity_set ≡ true
    pub provider : is_some f.registry.telemetry_provider ≡ true
    pub estop_hook : is_some f.registry.estop_hook ≡ true
    pub loss_hook : is_some f.registry.controller_loss_hook ≡ true
    pub schema_fits :
        is_ok (validate_maximum_schema_size f.registry (registry_identity f.registry)) ≡ true

  -- Why a start is refused.
  abbrev refuses : Facade V W → Bool
  refuses f =
      not f.network_config_set
      || not (is_ok (validate_metadata_for_seal f.registry))
      || not (is_ok (validate_maximum_schema_size f.registry (registry_identity f.registry)))
      || is_sealed f.registry.lifecycle

  -- A facade that is set up is not refused.
  IsSetUp-accepted : (f : Facade V W) → IsSetUp f → refuses f ≡ false
  unfolding validate_metadata_for_seal
  IsSetUp-accepted f u = ground (
    arith, u.unsealed, u.configured_network, u.identity, u.provider, u.estop_hook, u.loss_hook,
    u.schema_fits,
  )

  start-refused :
      (f : Facade V W) (w : W)
      → refuses f ≡ true
      → let (result, f', w') = start clock network fuel (f, w) in
        (is_ok result ≡ false) × (f' ≡ f) × (w' ≡ w)
  unfolding start commit_seal
  start-refused f w h = ground (arith, h)

  -- The facade that is launched.
  abbrev ready : Facade V W → Facade V W
  ready f = record f {
    registry = record f.registry { lifecycle = sealed };
    identity_bound = true;
    started = true;
  }

  start-attached :
      (f : Facade V W) (w : W)
      → refuses f ≡ false
      → f.attached ≡ true
      → start clock network fuel (f, w)
        ≡ (let (f', w') = launch clock network fuel (ready f, w) in (ok_status, f', w'))
  unfolding start commit_seal
  start-attached f w h a = ground (arith, h, a)

  start-detached :
      (f : Facade V W) (w : W)
      → refuses f ≡ false
      → f.attached ≡ false
      → start clock network fuel (f, w) ≡ (ok_status, ready f, w)
  unfolding start commit_seal
  start-detached f w h a = ground (arith, h, a)

  set_up :
      (f : Facade V W)
      → refuses f ≡ false
      → (is_sealed f.registry.lifecycle ≡ false)
        × (f.network_config_set ≡ true)
        × (is_ok (validate_metadata_for_seal f.registry) ≡ true)
        × (is_ok (validate_maximum_schema_size f.registry (registry_identity f.registry)) ≡ true)
  set_up f e = ground (arith, e)

  launched-IsStarted :
      (f : Facade V W) (session : Option Session) (telemetry : Option Telemetry)
      → refuses f ≡ false
      → (f.attached ≡ true
          → (s : Session) × (session ≡ some s) × IsSettled s × (s.counters ≡ f.counters))
      → (f.attached ≡ false → session ≡ f.session)
      → IsStarted f (record (ready f) { session = session; telemetry = telemetry })
  launched-IsStarted f session telemetry e sound alone =
      let (was_mutable, configured, metadata, size) = set_up f e in
      let (identity, provider, estop, loss) = metadata-set_up f.registry metadata in
      record {
        was_mutable = was_mutable;
        configured = configured;
        identity_set = identity;
        provider_set = provider;
        estop_hook_set = estop;
        loss_hook_set = loss;
        runs = refl;
        registry_sealed = refl;
        identity_is = refl;
        schema_builds = λ w. schema_for-sealed f.registry w size;
        attached_same = refl;
        session_sound = sound;
        otherwise_none = alone;
      }

  -- A start is refused, changes nothing, and something is not set up; or all is set up: the network,
  -- and in a mutable registry the identity, the telemetry provider and the two hooks. The facade then
  -- runs with a sealed registry whose schema can be built at any time, and, if it is attached, with a
  -- new session that is sound and has no teardown pending.
  pub start_lem :
      (f : Facade V W) (w : W)
      → let (result, f', w') = start clock network fuel (f, w) in
        ((is_ok result ≡ false) × (IsSetUp f → ⊥) × (f' ≡ f) × (w' ≡ w))
        ⊎ ((is_ok result ≡ true) × IsStarted f f')
  start_lem f w = elim (Bool-cases (refuses f)) [
    | inl e ↦
        let (refused, same, still) = start-refused f w e in
        inl (refused, λ u. true≢false (sym e ∙ IsSetUp-accepted f u), same, still)
    | inr e ↦ inr (elim (Bool-cases f.attached) [
      | inl a ↦ rw (start-attached f w e a) (
        refl,
        launched-IsStarted f _ _ e (λ h. begin-IsSettled (ready f) w)
            (λ h. absurd (true≢false (sym a ∙ h))),
      )
      | inr a ↦
          rw (start-detached f w e a)
            (refl, launched-IsStarted f _ _ e (λ h. absurd (true≢false (sym h ∙ a))) (λ h. refl))
    ])
  ]
    where
      true≢false : (true ≡ false) → ⊥
      true≢false h = cc
