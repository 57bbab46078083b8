-- ===== src/Session/Tests.antt =====
-- The session at a concrete world: a peer that waits to be accepted, and the bytes it has sent.
use cuddly_train.Base.{
  ℕ, ◌+◌, ◌≡◌, refl, Bool, true, false, List, [], ◌∷◌, ◌++◌, Option, some, arith, length, take,
  drop, codes, length-take, length-drop,
}
use cuddly_train.Counters.{Counters, zero_counters}
use cuddly_train.Wire.{
  LineView, MessageClass, ConnectionHandle, invalid_connection, TransportConnectionState, is_open,
  bytes_available, ready, superseded,
}
use cuddly_train.Platform.{Clock, Network}
use cuddly_train.Framer
use cuddly_train.Framer.Invariant.{init-IsValid}
use cuddly_train.Writer
use cuddly_train.Writer.{Sending}
use cuddly_train.Session.{Session, session_active, session_closing}
use cuddly_train.Session.Driver.{poll, next_line, tear_down, apply_pending_teardown}
use cuddly_train.Session.Sender.{sender, sender-IsSender}
use cuddly_train.Session.Invariant.{IsSound}
use cuddly_train.Session.Teardown.{IsSettled}
use cuddly_train.Session.Successor.{Follows, takes_over, apply_pending_teardown-Follows}
use cuddly_train.Session.Reading.{IsFinite, next_line-IsSound}
use cuddly_train.Session.Polling.{poll-IsSound}

record World : Type 0 where
  pub time : ℕ
  pub received : List ℕ
  pub waiting : Bool

abbrev clock : Clock World
clock = record {
  monotonic_milliseconds = λ (w : World). (w.time, w);
  monotonic_microseconds = λ (w : World). (w.time, w);
}

abbrev peer : ConnectionHandle
peer = record { slot = 1; generation = 1 }

abbrev reading : List ℕ → TransportConnectionState
reading [] = is_open
reading (b ∷ bs) = bytes_available

abbrev network : Network World
network = record {
  progress = λ (w : World). record w { time = w.time + 1 };
  availability = λ (w : World). (ready, w);
  listen = λ port (w : World). (true, w);
  is_listening = λ (w : World). (true, w);
  has_pending_connection = λ (w : World). (w.waiting, w);
  accept = λ (w : World). (peer, record w { waiting = false });
  has_transport = λ h (w : World). (true, w);
  abort = λ h (w : World). record w { received = [] };
  connection_state = λ h (w : World). (reading w.received, w);
  read_some = λ h n (w : World). (take n w.received, record w { received = drop n w.received });
  write_some = λ h (bytes : List ℕ) (w : World). (length bytes, w);
  flush = λ h (w : World). w;
}

-- The bytes that wait; the receive buffer holds at most 1000.
abbrev unread : ConnectionHandle → World → ℕ
unread h w = length w.received

finite : IsFinite network unread
finite = record {
  state_quiet = λ h w. omega arith;
  read_takes = λ h n w. omega (arith, length-take n w.received, length-drop n w.received);
}

abbrev hook : World → Bool × World
hook w = (true, record w { time = w.time + 2 })

abbrev build_schema : World → Option (List ℕ) × World
build_schema w = (some (codes "{}" ++ (b'\n' ∷ [])), w)

abbrev send : LineView → MessageClass → Writer.Writer × Counters × World → Sending World
send = sender clock network 10

-- A session that another connection replaces.
abbrev superseding : Session
superseding = record {
  configured = true;
  state = session_closing;
  active_handle = peer;
  replacement_handle = record { slot = 0; generation = 2 };
  pending_teardown_reason = superseded;
  teardown_pending = true;
  network_init_attempted = true;
  next_network_init_ms = 0;
  framer = Framer.init;
  writer = record Writer.init { transport = some peer };
  counters = zero_counters;
}

superseding-IsSound : IsSound superseding
superseding-IsSound = record {
  set_up = refl;
  framer_valid = init-IsValid;
  bound = refl;
  in_session = refl;
  pending = refl;
  at_rest = refl;
  replacement = λ h. cc;
}

abbrev active : Session
active = record superseding {
  state = session_active;
  replacement_handle = invalid_connection;
  teardown_pending = false;
}

active-IsSound : IsSound active
active-IsSound = record {
  set_up = refl;
  framer_valid = init-IsValid;
  bound = refl;
  in_session = refl;
  pending = refl;
  at_rest = refl;
  replacement = λ h. refl;
}

abbrev world : World
world = record { time = 0; received = codes "{}" ++ (b'\n' ∷ []); waiting = true }

apply_pending_teardown-Follows_example :
    let (s', w') =
      apply_pending_teardown clock network 5000
        (some hook)
        build_schema
        send
        (superseding, world) in
    IsSettled s'
    × (s'.teardown_pending ≡ false)
    × (true ≡ true
        → Follows
            (takes_over clock network 5000
              (some hook)
              build_schema
              send
              (sender-IsSender clock network 10)
              superseding.replacement_handle
              (tear_down clock network 5000 (some hook) build_schema send (superseding, world)))
            superseding.replacement_handle
            s')
    × (true ≡ false → (s' ≡ superseding) × (w' ≡ world))
apply_pending_teardown-Follows_example =
    apply_pending_teardown-Follows clock network 5000 (some hook) build_schema send
      (sender-IsSender clock network 10) superseding world superseding-IsSound

next_line-IsSound_example :
    (out : LineView × Session × World) × (next_line clock network 5000
        (some hook)
        build_schema
        send
        4
        (active, world)
      ≡ some out)
    × IsSound out.1
next_line-IsSound_example =
    next_line-IsSound clock network 5000 (some hook) build_schema send unread finite 4 active world
      (omega arith) active-IsSound

-- A network whose receive buffer is empty.
abbrev silent : Network World
silent = record network {
  connection_state = λ h (w : World). (is_open, w);
  read_some = λ h n (w : World). ([], w);
}

poll-IsSound_example :
    (out : Session × World) × (poll clock silent 5000
        (some hook)
        build_schema
        send
        1
        (active, world)
      ≡ some out)
    × IsSound out.0
poll-IsSound_example =
    poll-IsSound clock silent 5000 (some hook) build_schema send (sender-IsSender clock network 10)
      (λ h w. 0) (record { state_quiet = λ h w. omega arith; read_takes = λ h n w. omega arith }) 1
      (λ h w. omega arith) active world active-IsSound
