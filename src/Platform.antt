-- ===== src/Platform.antt =====
-- src/core/Clock.h, src/core/Transport.h and src/core/NetworkServer.h: the interfaces that the board's
-- platform implements. `W` is the state of the world behind them; every call may change it, also a
-- reading of the clock, between two of which time passes.
use cuddly_train.Base.{ℕ, ◌+◌, ◌-◌, ◌%◌, ◌^◌, Bool, List, Option, none, some}
use cuddly_train.Wire.{ConnectionHandle, NetworkAvailability, TransportConnectionState}

pub record Clock (W : Type 0) : Type 0 where
  pub monotonic_milliseconds : W → ℕ × W
  pub monotonic_microseconds : W → ℕ × W

-- A transport is named by the handle of its connection. `has_transport` says whether
-- `transport(handle)` is not null; the four methods of `Transport` take the handle.
pub record Network (W : Type 0) : Type 0 where
  pub progress : W → W
  pub availability : W → NetworkAvailability × W
  pub listen : ℕ → W → Bool × W
  pub is_listening : W → Bool × W
  pub has_pending_connection : W → Bool × W
  pub accept : W → ConnectionHandle × W
  pub has_transport : ConnectionHandle → W → Bool × W
  pub abort : ConnectionHandle → W → W
  pub connection_state : ConnectionHandle → W → TransportConnectionState × W
  pub read_some : ConnectionHandle → ℕ → W → List ℕ × W
  pub write_some : ConnectionHandle → List ℕ → W → ℕ × W
  pub flush : ConnectionHandle → W → W

-- `later - earlier` on `uint64_t`.
abbrev pub elapsed : ℕ → ℕ → ℕ
elapsed later earlier = (later + 2 ^ 64 - earlier) % 2 ^ 64

-- A clock that may be null reads 0.
module _ {W : Type 0} where
  abbrev pub read_ms : Option (Clock W) → W → ℕ × W
  read_ms none w = (0, w)
  read_ms (some clock) w = clock.monotonic_milliseconds w

  abbrev pub read_us : Option (Clock W) → W → ℕ × W
  read_us none w = (0, w)
  read_us (some clock) w = clock.monotonic_microseconds w

  -- `clock == nullptr ? 0 : clock->monotonicMicroseconds() - start`.
  abbrev pub elapsed_us : Option (Clock W) → ℕ → W → ℕ × W
  elapsed_us none start w = (0, w)
  elapsed_us (some clock) start w =
      let (now, w') = clock.monotonic_microseconds w in (elapsed now start, w')
