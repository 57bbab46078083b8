-- ===== src/Facade/Rounds.antt =====
-- The rounds of src/TeensyCommandServer.h: its session and its routes in the loop of
-- src/core/ServiceLoop.h.
use cuddly_train.Base.{ℕ, ◌<◌, ◌≡◌, ◌∙◌, refl, false, List, Option, some, none, inl}
use cuddly_train.Wire.{ConnectionHandle}
use cuddly_train.Platform.{Clock, Network}
use cuddly_train.Inbound.{JsonLibrary}
use cuddly_train.Telemetry.{Telemetry}
use cuddly_train.Session.{Session}
use cuddly_train.Session.Sender.{sender, sender-IsSender}
use cuddly_train.Session.Teardown.{IsSettled}
use cuddly_train.Session.Reading.{IsFinite}
use cuddly_train.Session.Polling.{poll-IsSound}
use cuddly_train.Session.Idle.{
  IsUsable, IsUsable-quiet, counted-IsUsable, requested-IsUsable, released-IsUsable, lined-IsUsable,
  applied-IsUsable, sent-IsUsable,
}
use cuddly_train.Loop.Engine.{IsKept}
use cuddly_train.Loop.Engine.Rounds.{service-Quiet}
use cuddly_train.Facade.{Facade, Board, registry_identity}
use cuddly_train.Facade.Launch.{schema_for}
use cuddly_train.Facade.Service.{
  Round, Driving, driver, facade_routes, loop_clock, telemetry_due, telemetry_inactive, round, load,
}

abbrev pub Usable : {W : Type 0} → Driving W → Type 0
Usable d = IsUsable d.session

abbrev pub Settled : {W : Type 0} → Driving W → Type 0
Settled d = IsSettled d.session

module _ {V Double Float W : Type 0} (lib : JsonLibrary V Double Float)
    (deserialize_copy : ℕ → List ℕ → Option V) (print_double : Double → List ℕ) (clock : Clock W)
    (network : Network W) (unread : ConnectionHandle → W → ℕ) (finite : IsFinite network unread)
    (fuel : ℕ) (room : (h : ConnectionHandle) (w : W) → unread h w < fuel) where
  module _ (port : ℕ) (r : Board V W) where
    -- The checks of the telemetry change no more of the session than its counters.
    inactive-same :
        (t : Option Telemetry) (e : Round V W)
        → (telemetry_inactive lib print_double clock network fuel port r t e).session ≡ e.session
    inactive-same none e = refl
    inactive-same (some t) e = refl

    due-Quiet :
        (t : Option Telemetry) (e : Round V W)
        → Usable e.session
        → e.session.session.teardown_pending ≡ false
        → let d = (telemetry_due lib print_double clock network fuel port r t e).session in
          Usable d × (d.session.teardown_pending ≡ false)
    due-Quiet none e v q = (v, q)
    due-Quiet (some t) e v q = (counted-IsUsable _ e.session.session v, q)

    -- The session and the routes of the facade fill the laws of the loop.
    pub facade-IsKept :
        IsKept
          (driver lib print_double clock network fuel port r)
          lib
          deserialize_copy
          (registry_identity r)
          (facade_routes lib print_double clock network fuel port r)
          (some (loop_clock lib print_double clock network fuel port r))
          Settled
          Usable
    unfolding driver facade_routes
    facade-IsKept =
        let send = sender clock network fuel in
        let law = sender-IsSender clock network fuel in
        let hook = r.controller_loss_hook in
        let build = schema_for clock network fuel r in
        record {
          polled = λ d v.
              (let (out, e, v') =
                  poll-IsSound clock network port hook build send law unread finite fuel room
                    d.session d.world v.0 in
                rw e (inl v'));
          lined = λ d v.
              (let (out, e, v') =
                  lined-IsUsable clock network port hook build send unread finite fuel room
                    d.session d.world v in
                rw e v');
          released = λ d v. released-IsUsable clock network port hook build send d.session v;
          requested = λ reason d v. requested-IsUsable reason d.session v;
          applied = λ d v.
              (let settled =
                  applied-IsUsable clock network port hook build send law d.session d.world v in
                (inl settled.0, settled.0.pending ∙ settled.1));
          sent = λ line m d v.
              sent-IsUsable clock network port hook build send law line m d.session d.world v;
          counted = λ c d v. counted-IsUsable c d.session v;
          read = λ e v. v;
          command = tt;
          command_with_timing = λ x t e v. counted-IsUsable _ e.session.session v;
          recoverable = tt;
          estop = tt;
          estop_with_result = λ x e v. counted-IsUsable _ e.session.session v;
          heartbeat = tt;
          heartbeat_with_result = λ x e v. counted-IsUsable _ e.session.session v;
          outcome = λ o e v. v;
          inactive = λ e v. rw (inactive-same e.context.telemetry e) v;
          inactive_quiet = λ e q. rw (inactive-same e.context.telemetry e) q;
          due_quiet = λ e (v, q). due-Quiet e.context.telemetry e v q;
          safety_quiet = λ e q. q;
        }

  -- For a network that can hold fewer unread bytes than the fuel and adds none while it is read, a
  -- round of the facade keeps its session sound and leaves it with no teardown pending, whatever
  -- lines it receives, whatever the board's handlers, hooks and providers do, and whatever fails.
  pub round-IsSettled :
      (f : Facade V W) (s : Session) (w : W)
      → IsSettled s
      → IsSettled (round lib deserialize_copy print_double clock network fuel f s w).session.session
  unfolding driver
  round-IsSettled f s w v =
      let port = f.network_config.listen_port in
      let r = f.registry in
      let (u, q) =
        service-Quiet (driver lib print_double clock network fuel port r) lib deserialize_copy
          (registry_identity r) (facade_routes lib print_double clock network fuel port r)
          (some (loop_clock lib print_double clock network fuel port r)) Settled Usable
          (facade-IsKept port r) (load lib print_double clock network fuel port r f s w) v in
      IsUsable-quiet
        (round lib deserialize_copy print_double clock network fuel f s w).session.session u q
