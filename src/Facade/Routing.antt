-- ===== src/Facade/Routing.antt =====
-- The lines that reach no route of src/TeensyCommandServer.h.
use cuddly_train.Base.{ℕ, ◌≡◌, List, Option, some, arith}
use cuddly_train.Platform.{Clock, Network}
use cuddly_train.Inbound.{JsonLibrary, ParseOutcome, structurally_invalid, parse}
use cuddly_train.Loop.{SourceTarget, route_parsed, process_line, now_us, extract_source_target}
use cuddly_train.Facade.{Board, registry_identity}
use cuddly_train.Facade.Service.{Round, driver, facade_routes, loop_clock, counters_of}

module _ {V Double Float W : Type 0} (lib : JsonLibrary V Double Float)
    (deserialize_copy : ℕ → List ℕ → Option V) (print_double : Double → List ℕ) (clock : Clock W)
    (network : Network W) (fuel : ℕ) (port : ℕ) (r : Board V W) where
  -- `processLine` and its end, with the routes of the facade.
  abbrev pub process_facade_line : List ℕ → Round V W → Round V W
  process_facade_line =
      process_line (driver lib print_double clock network fuel port r) lib deserialize_copy
        (registry_identity r) (facade_routes lib print_double clock network fuel port r)
        (some (loop_clock lib print_double clock network fuel port r))

  route_parsed-structural :
      (outcome : ParseOutcome Double) (gate : SourceTarget) (t : ℕ) (e : Round V W)
      → outcome.kind ≡ structurally_invalid
      → let e' =
          route_parsed
            (driver lib print_double clock network fuel port r)
            lib
            deserialize_copy
            (registry_identity r)
            (facade_routes lib print_double clock network fuel port r)
            (some (loop_clock lib print_double clock network fuel port r))
            outcome
            gate
            t
            e in
        (e'.scheduler ≡ e.scheduler) × (e'.context ≡ e.context)
  unfolding route_parsed facade_routes
  route_parsed-structural outcome gate t e k = rw k (ground arith)

  -- The facade gives its loop no route for errors that a command can recover from: a command that is
  -- structurally wrong is answered with nothing, also where its sequence number and the code of its
  -- error were read, for no line of that outcome changes what is queued.
  pub process_line-structural :
      (line : List ℕ) (e : Round V W)
      → let (outcome, _, _) = parse lib (some line) e.parser (counters_of e) in
        outcome.kind ≡ structurally_invalid
        → let e' = process_facade_line line e in
          (e'.scheduler ≡ e.scheduler) × (e'.context ≡ e.context)
  unfolding process_line driver
  process_line-structural line e k =
      let (outcome, parser, c) = parse lib (some line) e.parser (counters_of e) in
      let (t, e') =
        now_us (driver lib print_double clock network fuel port r) lib deserialize_copy
          (registry_identity r) (facade_routes lib print_double clock network fuel port r)
          (some (loop_clock lib print_double clock network fuel port r))
          (record e {
            parser = parser;
            session = record e.session { session = record e.session.session { counters = c } };
          }) in
      let gate =
        extract_source_target (driver lib print_double clock network fuel port r) lib
          deserialize_copy (registry_identity r)
          (facade_routes lib print_double clock network fuel port r)
          (some (loop_clock lib print_double clock network fuel port r)) line in
      route_parsed-structural outcome gate t e' k
