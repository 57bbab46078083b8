-- ===== src/Facade/History.antt =====
-- A started facade of src/TeensyCommandServer.h between its rounds and the calls of the sketch.
use mathlib.Core.Path.{subst}
use cuddly_train.Base.{
  ℕ, ◌<◌, ◌≡◌, ◌∙◌, sym, refl, ap, true, false, List, [], ◌∷◌, Option, some, inl, inr, CString,
}
use cuddly_train.Wire.{ConnectionHandle}
use cuddly_train.Status.{is_ok}
use cuddly_train.Platform.{Clock, Network}
use cuddly_train.Inbound.{JsonLibrary}
use cuddly_train.Registry.{is_sealed}
use cuddly_train.Session.{Session}
use cuddly_train.Session.Teardown.{IsSettled}
use cuddly_train.Session.Reading.{IsFinite}
use cuddly_train.Facade.{Facade, Board}
use cuddly_train.Facade.Calls.{request_estop_triggered}
use cuddly_train.Facade.Launch.{start}
use cuddly_train.Facade.Service.{service}
use cuddly_train.Facade.Start.{IsStarted, start_lem}
use cuddly_train.Facade.Setup.{SetupCall, run_setup, run_setup-sealed}
use cuddly_train.Facade.Rounds.{round-IsSettled}

-- What the sketch does: a round, a report of its own e-stop, or a call of the setup.
pub data Step (V W : Type 0) : Type 0 where
  serves : Step V W
  reports : CString → Step V W
  sets_up : SetupCall V W → Step V W

-- A facade that runs on the registry `r`.
pub record IsRunning {V W : Type 0} (r : Board V W) (f : Facade V W) : Type 0 where
  pub runs : f.started ≡ true
  pub registry_is : f.registry ≡ r
  pub is_sealed_now : is_sealed r.lifecycle ≡ true
  pub session_is : (s : Session) × (f.session ≡ some s) × IsSettled s

module _ {V Double Float W : Type 0} (lib : JsonLibrary V Double Float)
    (deserialize_copy : ℕ → List ℕ → Option V) (print_double : Double → List ℕ) (clock : Clock W)
    (network : Network W) (fuel : ℕ) where
  abbrev pub step : Step V W → Facade V W × W → Facade V W × W
  step serves (f, w) = service lib deserialize_copy print_double clock network fuel (f, w)
  step (reports reason) (f, w) =
      let (_, f', w') = request_estop_triggered clock reason (f, w) in (f', w')
  step (sets_up c) (f, w) = run_setup clock network fuel (c ∷ []) (f, w)

  abbrev pub run_steps : List (Step V W) → Facade V W × W → Facade V W × W
  run_steps [] st = st
  run_steps (c ∷ cs) st = run_steps cs (step c st)

  module _ (unread : ConnectionHandle → W → ℕ) (finite : IsFinite network unread)
      (room : (h : ConnectionHandle) (w : W) → unread h w < fuel) where
    serves-IsRunning :
        (r : Board V W) (f : Facade V W) (w : W)
        → IsRunning r f
        → IsRunning r (service lib deserialize_copy print_double clock network fuel (f, w)).0
    unfolding service
    serves-IsRunning r f w v =
        let (s, e, settled) = v.session_is in
        rw (v.runs, e, service)
          (record {
            runs = v.runs;
            registry_is = v.registry_is;
            is_sealed_now = v.is_sealed_now;
            session_is = (
              _,
              refl,
              round-IsSettled lib deserialize_copy print_double clock network unread finite fuel
                  room f s w settled,
            );
          })

    step-IsRunning :
        (c : Step V W) (r : Board V W) (f : Facade V W) (w : W)
        → IsRunning r f
        → IsRunning r (step c (f, w)).0
    unfolding request_estop_triggered
    step-IsRunning serves r f w v = serves-IsRunning r f w v
    step-IsRunning (reports reason) r f w v = record {
      runs = v.runs;
      registry_is = v.registry_is;
      is_sealed_now = v.is_sealed_now;
      session_is = v.session_is;
    }
    step-IsRunning (sets_up c) r f w v =
        subst (λ (st : Facade V W × W). IsRunning r st.0)
          (sym
            (run_setup-sealed clock network fuel (c ∷ []) f w
              (ap (λ q. is_sealed q.lifecycle) v.registry_is ∙ v.is_sealed_now)).0)
          v

    started :
        {before after : Facade V W}
        → IsStarted clock network fuel before after
        → before.attached ≡ true
        → IsRunning after.registry after
    started v a =
        let (s, e, settled, _) = v.session_sound (v.attached_same ∙ a) in
        record {
          runs = v.runs;
          registry_is = refl;
          is_sealed_now = ap (λ q. is_sealed q.lifecycle) v.registry_sealed;
          session_is = (s, e, settled);
        }

    run-IsRunning :
        (cs : List (Step V W)) (r : Board V W) (f : Facade V W) (w : W)
        → IsRunning r f
        → IsRunning r (run_steps cs (f, w)).0
    run-IsRunning [] r f w v = v
    run-IsRunning (c ∷ cs) r f w v =
        let (f', w') = step c (f, w) in run-IsRunning cs r f' w' (step-IsRunning c r f w v)

    -- From a successful start of an attached facade on, for a network that can hold fewer unread bytes
    -- than the fuel and adds none while it is read: whatever rounds are served, e-stops reported and
    -- setup calls made, the registry stays as it was sealed, and between two calls the session is
    -- sound and no teardown is pending.
    pub start-IsRunning :
        (f : Facade V W) (w : W)
        → f.attached ≡ true
        → is_ok (start clock network fuel (f, w)).0 ≡ true
        → (cs : List (Step V W))
        → let (_, f', w') = start clock network fuel (f, w) in
          IsRunning f'.registry (run_steps cs (f', w')).0
    start-IsRunning f w a ok cs =
        let (_, f', w') = start clock network fuel (f, w) in
        run-IsRunning cs f'.registry f' w' (elim (start_lem clock network fuel f w) [
          | inl (refused, _, _, _) ↦ absurd (true≢false (sym ok ∙ refused))
          | inr (_, v) ↦ started v a
        ])
      where
        true≢false : (true ≡ false) → ⊥
        true≢false h = cc
