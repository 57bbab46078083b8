-- ===== src/Writer/Deadline.antt =====
-- The loop of a send ends: enough fuel gives a result.
use cuddly_train.Base.{
  ℕ, zero, suc, ◌+◌, ◌*◌, ◌/◌, ◌^◌, ◌≤◌, ◌<◌, ◌%◌, ◌⊎◌, true, ◌≡◌, refl, Bool, false, List, some,
  arith, length, drop, ltb, leb, ◌==◌, Bool-cases, inl, inr,
}
use cuddly_train.Limits.{transmit_deadline_ms}
use cuddly_train.Wire.{ConnectionHandle}
use cuddly_train.Platform.{Clock, Network, elapsed}
use cuddly_train.Writer.{send_loop}

-- What the platform documents of time: `now` is the time since the board started in microseconds,
-- which the clock shows in milliseconds, modulo 2^32 as `millis` does. No call turns it back or takes
-- longer than 2^40 microseconds (twelve days), and a call of `progress` takes at least one.
pub record IsTimed {W : Type 0} (clock : Clock W) (network : Network W) (now : W → ℕ) : Type 0 where
  pub reads : (w : W) → (clock.monotonic_milliseconds w).0 ≡ now w / 1000 % 2 ^ 32
  pub read_later : (w : W) → now w ≤ now (clock.monotonic_milliseconds w).1
  pub read_soon : (w : W) → now (clock.monotonic_milliseconds w).1 ≤ now w + 2 ^ 40
  pub write_later :
      (h : ConnectionHandle) (bytes : List ℕ) (w : W) → now w ≤ now (network.write_some h bytes w).1
  pub write_soon :
      (h : ConnectionHandle) (bytes : List ℕ) (w : W)
      → now (network.write_some h bytes w).1 ≤ now w + 2 ^ 40
  pub progress_later : (w : W) → now w < now (network.progress w)
  pub progress_soon : (w : W) → now (network.progress w) ≤ now w + 2 ^ 40

-- Between two times in microseconds the clock moved on by the 100 ms of the deadline, or its 32 bits
-- wrapped.
abbrev pub IsLate : ℕ → ℕ → Type 0
IsLate begun t = (begun / 1000 + 100 ≤ t / 1000) ⊎ (begun / 1000 / 2 ^ 32 < t / 1000 / 2 ^ 32)

-- Where the deadline is not over, less than it has passed.
not_late :
    (t start : ℕ)
    → start ≤ t / 1000
    → t ≤ start * 1000 + 4000000000000
    → leb transmit_deadline_ms (elapsed (t / 1000 % 2 ^ 32) (start % 2 ^ 32)) ≡ false
    → t < start * 1000 + 100000
not_late t start a b h = ground arith

-- Where it is over, it has passed, or the clock wrapped.
late :
    (t start : ℕ)
    → start ≤ t / 1000
    → leb transmit_deadline_ms (elapsed (t / 1000 % 2 ^ 32) (start % 2 ^ 32)) ≡ true
    → (start + 100 ≤ t / 1000) ⊎ (start / 2 ^ 32 < t / 1000 / 2 ^ 32)
late t start a h = ground arith

module _ {W : Type 0} (clock : Clock W) (network : Network W) (now : W → ℕ)
    (law : IsTimed clock network now) where
  late-later :
      (begun t t' : ℕ)
      → t ≤ t'
      → (begun + 100 ≤ t / 1000) ⊎ (begun / 2 ^ 32 < t / 1000 / 2 ^ 32)
      → (begun + 100 ≤ t' / 1000) ⊎ (begun / 2 ^ 32 < t' / 1000 / 2 ^ 32)
  late-later begun t t' h (inl a) = inl (omega arith)
  late-later begun t t' h (inr a) = inr (omega arith)

  -- Fuel that lasts until the deadline is enough, whatever the transport accepts, and the loop gives up
  -- only where the deadline has passed on the clock or the clock wrapped.
  pub send_loop-returns :
      (fuel : ℕ) (h : ConnectionHandle) (line : List ℕ) (begun accepted : ℕ) (w : W)
      → 0 < fuel
      → begun * 1000 + 100000 < now w + fuel
      → begun ≤ now w / 1000
      → now w ≤ begun * 1000 + 4000000000000
      → (out : Bool × W) × (send_loop clock network fuel h line (begun % 2 ^ 32) accepted w
          ≡ some out)
        × (out.0 ≡ false
            → (begun + 100 ≤ now out.1 / 1000) ⊎ (begun / 2 ^ 32 < now out.1 / 1000 / 2 ^ 32))
  unfolding send_loop
  send_loop-returns zero h line begun accepted w p f s b = absurd (omega arith)
  send_loop-returns (suc fuel) h line begun accepted w p f s b =
      let (shown, w₁) = clock.monotonic_milliseconds w in
      let (written, w₂) = network.write_some h (drop accepted line) w₁ in
      elim (Bool-cases (ltb accepted (length line))) [
        | inr all_sent ↦ rw all_sent (_, refl, λ k. cc)
        | inl more ↦
            rw more (elim (Bool-cases (leb transmit_deadline_ms (elapsed shown (begun % 2 ^ 32)))) [
              | inl over ↦
                  let passed = late (now w) begun s (rw (law.reads w) at over) in
                  rw over
                    (_, refl, λ k. late-later begun (now w) (now w₁) (law.read_later w) passed)
              | inr early ↦ rw early (elim (Bool-cases (accepted + written == length line)) [
                | inl whole ↦ rw whole (_, refl, λ k. cc)
                | inr part ↦
                    let soon : now w < begun * 1000 + 100000 =
                      not_late (now w) begun s b (rw (law.reads w) at early) in
                    let w₃ = network.progress w₂ in
                    let a₁ = law.read_later w in
                    let b₁ = law.read_soon w in
                    let a₂ = law.write_later h (drop accepted line) w₁ in
                    let b₂ = law.write_soon h (drop accepted line) w₁ in
                    let a₃ = law.progress_later w₂ in
                    let b₃ = law.progress_soon w₂ in
                    rw part (
                      send_loop-returns fuel h line begun (accepted + written) w₃ (omega arith)
                        (omega arith) (omega arith) (omega arith))
              ])
            ])
      ]
