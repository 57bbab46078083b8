-- ===== src/Facade/Service.antt =====
-- `service` of src/TeensyCommandServer.h, with the routes that it gives to the loop.
use cuddly_train.Base.{ℕ, Bool, not, List, Option, some, none, if◌then◌else◌}
use cuddly_train.Counters.{Counters}
use cuddly_train.Platform.{Clock, Network}
use cuddly_train.Wire.{LineView}
use cuddly_train.Inbound.{JsonLibrary, ParsedCommand, ParsedEstop}
use cuddly_train.Heartbeat.{ParsedHeartbeat, handle_heartbeat}
use cuddly_train.Outbound.{Scheduler, OutboundOutcome}
use cuddly_train.Estop.{EstopHandler, handle_estop, on_outbound_outcome}
use cuddly_train.Estop as Estop
use cuddly_train.Telemetry.{Telemetry, on_session_inactive}
use cuddly_train.Telemetry as Telemetry
use cuddly_train.Dispatch.{dispatch}
use cuddly_train.Session.{Session, session_active_now, request_teardown}
use cuddly_train.Session.Driver.{
  poll, next_line, release_active_line, apply_pending_teardown, send_active_line,
}
use cuddly_train.Session.Sender.{sender}
use cuddly_train.Loop.{SessionLike, Loop, Routes}
use cuddly_train.Facade.{Facade, Board, registry_identity}
use cuddly_train.Facade.Launch.{schema_for}
use cuddly_train.Loop as Loop

-- The session and the world that it reaches.
pub record Driving (W : Type 0) : Type 0 where
  pub session : Session
  pub world : W

-- What else the routes reach: `telemetry_scheduler_` may be a null pointer.
pub record Context : Type 0 where
  pub estop_handler : EstopHandler
  pub telemetry : Option Telemetry

abbrev pub Round : Type 0 → Type 0 → Type 0
Round V W = Loop (Driving W) V Context

module _ {V W : Type 0} where
  abbrev pub counters_of : Round V W → Counters
  counters_of e = e.session.session.counters

  -- What a handler leaves.
  abbrev pub put : Scheduler → Counters → W → Round V W → Round V W
  put scheduler c w e = record e {
    scheduler = scheduler;
    session = record { session = record e.session.session { counters = c }; world = w };
  }

-- `fuel` bounds the rounds of a read and of a send.
module _ {V Double Float W : Type 0} (lib : JsonLibrary V Double Float)
    (print_double : Double → List ℕ) (clock : Clock W) (network : Network W) (fuel : ℕ) (port : ℕ)
    (r : Board V W) where
  -- With too little fuel nothing happens; `Session.Polling` and `Session.Reading` say what is enough.
  abbrev pub polled : Driving W → Option (Session × W) → Driving W
  polled d none = d
  polled d (some (s, w)) = record { session = s; world = w }

  abbrev pub line_of : Driving W → Option (LineView × Session × W) → Option (List ℕ) × Driving W
  line_of d none = (none, d)
  line_of d (some (line, s, w)) = (line, record { session = s; world = w })

  unfoldable pub driver : SessionLike (Driving W)
  unfolding poll next_line release_active_line apply_pending_teardown send_active_line sender
      schema_for request_teardown session_active_now
  driver =
      let send = sender clock network fuel in
      let hook = r.controller_loss_hook in
      let build = schema_for clock network fuel r in
      record {
        poll = λ d. polled d (poll clock network port hook build send fuel (d.session, d.world));
        next_line =
            λ d. line_of d (next_line clock network port hook build send fuel (d.session, d.world));
        release_line = λ d. record d {
          session = release_active_line clock network port hook build send d.session;
        };
        teardown_pending = λ d. d.session.teardown_pending;
        session_active = λ d. session_active_now d.session;
        request_teardown = λ reason d. record d { session = request_teardown reason d.session };
        apply_pending_teardown = λ d.
            let (s, w) =
              apply_pending_teardown clock network port hook build send (d.session, d.world) in
            record { session = s; world = w };
        send_active_line = λ line message_class d.
            let (result, s, w) =
              send_active_line clock network port hook build send line message_class
                (d.session, d.world) in
            (result, record { session = s; world = w });
        counters = λ d. d.session.counters;
        with_counters = λ c d. record d { session = record d.session { counters = c } };
      }

  -- The routes run only in a round, for which the facade has its clock.
  unfoldable pub route_command : ParsedCommand Double → ℕ → Round V W → Bool × Round V W
  unfolding dispatch
  route_command parsed parse_completed_us e =
      let (torn, scheduler, c, w) =
        dispatch lib print_double clock (registry_identity r) r.commands parsed parse_completed_us
          e.parser e.scheduler (counters_of e) e.session.world in
      (torn, put scheduler c w e)

  unfoldable pub route_estop : ParsedEstop → Round V W → Bool × Round V W
  unfolding handle_estop
  route_estop parsed e =
      let (torn, scheduler, c, w) =
        handle_estop (some clock) r.estop_hook (registry_identity r)
          (e.scheduler, counters_of e, e.session.world) in
      (torn, put scheduler c w e)

  unfoldable pub route_heartbeat : ParsedHeartbeat → Round V W → Bool × Round V W
  unfolding handle_heartbeat
  route_heartbeat parsed e =
      let (torn, scheduler, c) =
        handle_heartbeat parsed (registry_identity r) (e.scheduler, counters_of e) in
      (torn, put scheduler c e.session.world e)

  unfoldable pub route_safety_due : Round V W → Bool × Round V W
  unfolding Estop.service
  route_safety_due e =
      let (torn, h, scheduler) =
        Estop.service (registry_identity r) (e.context.estop_handler, e.scheduler) in
      (torn, record e { scheduler = scheduler; context = record e.context { estop_handler = h } })

  unfoldable pub route_outbound_outcome : OutboundOutcome → Round V W → Round V W
  unfolding on_outbound_outcome
  route_outbound_outcome outcome e =
      let (h, scheduler) = on_outbound_outcome outcome (e.context.estop_handler, e.scheduler) in
      record e { scheduler = scheduler; context = record e.context { estop_handler = h } }

  abbrev pub put_telemetry : Telemetry → Round V W → Round V W
  put_telemetry t e = record e { context = record e.context { telemetry = some t } }

  abbrev pub telemetry_due : Option Telemetry → Round V W → Round V W
  telemetry_due none e = e
  telemetry_due (some t) e =
      let (t', scheduler, c, w) =
        Telemetry.service clock (registry_identity r) r.telemetry_provider
          (t, e.scheduler, counters_of e, e.session.world) in
      put_telemetry t' (put scheduler c w e)

  unfoldable pub route_telemetry_due : Round V W → Round V W
  unfolding Telemetry.service
  route_telemetry_due e = telemetry_due e.context.telemetry e

  abbrev pub telemetry_inactive : Option Telemetry → Round V W → Round V W
  telemetry_inactive none e = e
  telemetry_inactive (some t) e = put_telemetry (on_session_inactive t) e

  unfoldable pub route_telemetry_inactive : Round V W → Round V W
  unfolding on_session_inactive
  route_telemetry_inactive e = telemetry_inactive e.context.telemetry e

  unfoldable pub facade_routes : Routes (Round V W) Double
  unfolding route_command route_estop route_heartbeat route_safety_due route_outbound_outcome
      route_telemetry_due route_telemetry_inactive
  facade_routes = record {
    command = none;
    recoverable_command_error = none;
    estop = none;
    heartbeat = none;
    telemetry_due = some route_telemetry_due;
    outbound_outcome = some route_outbound_outcome;
    command_with_timing = some route_command;
    telemetry_inactive = some route_telemetry_inactive;
    estop_with_result = some route_estop;
    heartbeat_with_result = some route_heartbeat;
    safety_due = some route_safety_due;
  }

  -- The clock of the loop reads the world of the session.
  abbrev pub reading : (W → ℕ × W) → Round V W → ℕ × Round V W
  reading read e =
      let (now, w) = read e.session.world in
      (now, record e { session = record e.session { world = w } })

  abbrev pub loop_clock : Clock (Round V W)
  loop_clock = record {
    monotonic_milliseconds = reading clock.monotonic_milliseconds;
    monotonic_microseconds = reading clock.monotonic_microseconds;
  }

  -- The facade as its loop sees it, and what a round leaves.
  abbrev pub load : Facade V W → Session → W → Round V W
  load f s w = record {
    session = record { session = s; world = w };
    scheduler = f.scheduler;
    parser = f.parser;
    context = record { estop_handler = f.estop_handler; telemetry = f.telemetry };
  }

  abbrev pub unload : Facade V W → Round V W → Facade V W × W
  unload f e = (
    record f {
      counters = counters_of e;
      scheduler = e.scheduler;
      estop_handler = e.context.estop_handler;
      session = some e.session.session;
      telemetry = e.context.telemetry;
      parser = e.parser;
    },
    e.session.world,
  )

module _ {V Double Float W : Type 0} (lib : JsonLibrary V Double Float)
    (deserialize_copy : ℕ → List ℕ → Option V) (print_double : Double → List ℕ) (clock : Clock W)
    (network : Network W) (fuel : ℕ) where
  -- One round of the loop, for the session that `start` has made.
  abbrev pub round : Facade V W → Session → W → Round V W
  round f s w =
      let r = f.registry in
      let port = f.network_config.listen_port in
      Loop.service (driver lib print_double clock network fuel port r) lib deserialize_copy
        (registry_identity r) (facade_routes lib print_double clock network fuel port r)
        (some (loop_clock lib print_double clock network fuel port r))
        (load lib print_double clock network fuel port r f s w)

  unfoldable pub service : Facade V W × W → Facade V W × W
  unfolding Loop.service driver facade_routes
  service (f, w) = if not f.started then (f, w) else elim f.session [
    | none ↦ (f, w)
    | some s ↦
        unload lib print_double clock network fuel f.network_config.listen_port f.registry f
          (round f s w)
  ]
