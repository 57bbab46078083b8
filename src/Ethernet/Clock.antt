-- ===== src/Ethernet/Clock.antt =====
-- src/platform/qnethernet/QNEthernetClock.h: the clock of the board, on `millis` and `micros` of the
-- Arduino core, which are parameters.
use cuddly_train.Base.{ℕ, ◌+◌, ◌-◌, ◌%◌, ◌^◌, ◌≤◌, ◌<◌, ◌≡◌, ◌⊎◌, inl, inr, arith, ltb, Bool-cases}
use cuddly_train.Platform.{Clock, elapsed}

-- A cast of 32 bits to `uint64_t` keeps the value.
unfoldable pub board_clock : {W : Type 0} → (W → ℕ × W) → (W → ℕ × W) → Clock W
board_clock millis micros = record {
  monotonic_milliseconds = millis;
  monotonic_microseconds = micros;
}

-- `micros` returns the time since the board started modulo 2^32.
pub record IsCounter {W : Type 0} (micros : W → ℕ × W) (since_start : W → ℕ) : Type 0 where
  pub reads : (w : W) → (micros w).0 ≡ since_start w % 2 ^ 32

-- Two readings of the clock's microseconds, between which less than 2^32 of them pass: their
-- difference is the time that passed, or, exactly if the counter wrapped in between, it exceeds that
-- time by 2^64 - 2^32.
pub elapsed-board_clock :
    {W : Type 0} (millis micros : W → ℕ × W) (since_start : W → ℕ)
    → IsCounter micros since_start
    → (w w' : W) (passed : ℕ) → since_start w' ≡ since_start w + passed
    → passed < 2 ^ 32
    → let clock = board_clock millis micros in
      let begun = (clock.monotonic_microseconds w).0 in
      let measured = elapsed (clock.monotonic_microseconds w').0 begun in
      ((begun + passed < 2 ^ 32) × (measured ≡ passed))
      ⊎ ((2 ^ 32 ≤ begun + passed) × (measured ≡ passed + (2 ^ 64 - 2 ^ 32)))
unfolding board_clock
elapsed-board_clock millis micros since_start law w w' passed later short =
    rw (law.reads w, law.reads w', later) (difference (since_start w) passed short)
  where
    difference :
        (t d : ℕ)
        → d < 2 ^ 32
        → ((t % 2 ^ 32 + d < 2 ^ 32) × (elapsed ((t + d) % 2 ^ 32) (t % 2 ^ 32) ≡ d))
          ⊎ ((2 ^ 32 ≤ t % 2 ^ 32 + d)
              × (elapsed ((t + d) % 2 ^ 32) (t % 2 ^ 32) ≡ d + (2 ^ 64 - 2 ^ 32)))
    difference t d h = elim (Bool-cases (ltb (t % 2 ^ 32 + d) (2 ^ 32))) [
      | inl e ↦ inl (ground (arith, e), ground (arith, e, h))
      | inr e ↦ inr (ground (arith, e), ground (arith, e, h))
    ]
