-- ===== src/Writer/Tests.antt =====
-- The writer at concrete inputs: a world of the time in microseconds and of the bytes that were sent.
use cuddly_train.Base.{
  ℕ, ◌+◌, ◌/◌, ◌%◌, ◌^◌, ◌≤◌, ◌≡◌, refl, true, false, List, [], ◌∷◌, ◌++◌, some, arith, take,
  length,
}
use cuddly_train.Counters.{zero_counters}
use cuddly_train.Wire.{ConnectionHandle, critical, is_open, ready}
use cuddly_train.Platform.{Clock, Network}
use cuddly_train.Writer.{Writer, init, Sending, send_line, is_valid_wire_line, has_inner_newline}
use cuddly_train.Writer.Wire.{IsWire}
use cuddly_train.Writer.Deadline.{IsTimed}
use cuddly_train.Writer.Valid.{Sends, send_line-Sends}

record World : Type 0 where
  pub time : ℕ
  pub out : List ℕ

abbrev clock : Clock World
clock = record {
  monotonic_milliseconds = λ (w : World). (w.time / 1000 % 2 ^ 32, record w { time = w.time + 1 });
  monotonic_microseconds = λ (w : World). (w.time, record w { time = w.time + 1 });
}

abbrev peer : ConnectionHandle
peer = record { slot = 1; generation = 1 }

-- One byte is accepted at a time.
abbrev one_byte : List ℕ → ℕ
one_byte [] = 0
one_byte (b ∷ bs) = 1

abbrev network : Network World
network = record {
  progress = λ (w : World). record w { time = w.time + 10 };
  availability = λ (w : World). (ready, w);
  listen = λ port (w : World). (true, w);
  is_listening = λ (w : World). (true, w);
  has_pending_connection = λ (w : World). (false, w);
  accept = λ (w : World). (peer, w);
  has_transport = λ h (w : World). (true, w);
  abort = λ h (w : World). w;
  connection_state = λ h (w : World). (is_open, w);
  read_some = λ h n (w : World). ([], w);
  write_some = λ h (bytes : List ℕ) (w : World).
      (one_byte bytes, record w { time = w.time + 5; out = w.out ++ take (one_byte bytes) bytes });
  flush = λ h (w : World). w;
}

abbrev wire : ConnectionHandle → World → List ℕ
wire h w = w.out

abbrev now : World → ℕ
now w = w.time

one_byte-within : (bytes : List ℕ) → one_byte bytes ≤ length bytes
one_byte-within [] = omega arith
one_byte-within (b ∷ bs) = omega arith

wired : IsWire clock network wire
wired = record {
  clock_quiet = λ h w. refl;
  write_within = λ h bytes w. one_byte-within bytes;
  write_appends = λ h bytes w. refl;
  flush_quiet = λ h w. refl;
  progress_quiet = λ h w. refl;
}

timed : IsTimed clock network now
timed = record {
  reads = λ w. refl;
  read_later = λ w. omega arith;
  read_soon = λ w. omega arith;
  write_later = λ h bytes w. omega arith;
  write_soon = λ h bytes w. omega arith;
  progress_later = λ w. omega arith;
  progress_soon = λ w. omega arith;
}

abbrev line : List ℕ
line = b'{' ∷ b'}' ∷ b'\n' ∷ []

abbrev writer : Writer
writer = record init { transport = some peer }

abbrev start : World
start = record { time = 5000; out = b'x' ∷ b'\n' ∷ [] }

line_valid : is_valid_wire_line (some line) ≡ true
unfolding is_valid_wire_line has_inner_newline
line_valid = refl

send_line-Sends_example :
    (out : Sending World) × (send_line clock network 100001
        (some line)
        critical
        (writer, zero_counters, start)
      ≡ some out)
    × Sends wire now peer line critical writer start out
send_line-Sends_example =
    send_line-Sends clock network wire now wired timed 100001 peer line critical writer
      zero_counters start (omega arith) refl refl line_valid
