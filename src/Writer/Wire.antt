-- ===== src/Writer/Wire.antt =====
-- What reaches the wire: a line that is sent is there whole, once and in order.
use mathlib.Core.List.{append_assoc}
use cuddly_train.Base.{
  ℕ, zero, suc, ◌+◌, ◌≤◌, ◌≡◌, ◌∙◌, sym, refl, ap, Bool, List, [], ◌∷◌, ◌++◌, Option, some, none,
  arith, length, drop, take, ltb, leb, ◌==◌, Bool-cases, inl, inr, length-drop,
}
use cuddly_train.Limits.{transmit_deadline_ms}
use cuddly_train.Wire.{ConnectionHandle}
use cuddly_train.Platform.{Clock, Network, elapsed}
use cuddly_train.Writer.{send_loop}

-- What the network documents: `wire` is what the peer of a connection has been sent. A write accepts
-- a prefix of what it is handed, and nothing else that the loop calls sends anything.
pub record IsWire {W : Type 0} (clock : Clock W) (network : Network W)
    (wire : ConnectionHandle → W → List ℕ) : Type 0 where
  pub clock_quiet :
      (h : ConnectionHandle) (w : W) → wire h (clock.monotonic_milliseconds w).1 ≡ wire h w
  pub write_within :
      (h : ConnectionHandle) (bytes : List ℕ) (w : W)
      → (network.write_some h bytes w).0 ≤ length bytes
  pub write_appends :
      (h : ConnectionHandle) (bytes : List ℕ) (w : W)
      → wire h (network.write_some h bytes w).1
        ≡ wire h w ++ take (network.write_some h bytes w).0 bytes
  pub flush_quiet : (h : ConnectionHandle) (w : W) → wire h (network.flush h w) ≡ wire h w
  pub progress_quiet : (h : ConnectionHandle) (w : W) → wire h (network.progress w) ≡ wire h w

take-nil {ℓ} : {A : Type ℓ} (n : ℕ) → take {A = A} n [] ≡ []
take-nil zero = refl
take-nil (suc n) = refl

-- A prefix of a list, and a prefix of what is behind it.
take-drop-append {ℓ} :
    {A : Type ℓ} (n m : ℕ) (xs : List A) → take n xs ++ take m (drop n xs) ≡ take (n + m) xs
take-drop-append zero m xs = ap (λ k. take k xs) (omega arith)
take-drop-append (suc n) m [] = take-nil m ∙ sym (take-nil (suc n + m))
take-drop-append (suc n) m (x ∷ xs) =
    let e : suc n + m ≡ suc (n + m) = omega arith in rw e (ap (◌∷◌ x) (take-drop-append n m xs))

module _ {W : Type 0} (wire : ConnectionHandle → W → List ℕ) (h : ConnectionHandle)
    (line before : List ℕ) where
  -- When the loop ends, exactly a prefix of the line has been sent behind what was sent before, and it
  -- is the whole line exactly if the loop says so.
  abbrev pub OnWire : Option (Bool × W) → Type 0
  OnWire none = Unit {0}
  OnWire (some (done, w)) =
      (k : ℕ) × (k ≤ length line)
      × (wire h w ≡ before ++ take k line)
      × (done ≡ leb (length line) k)

module _ {W : Type 0} (clock : Clock W) (network : Network W) (wire : ConnectionHandle → W → List ℕ)
    (law : IsWire clock network wire) where
  write-step :
      (h : ConnectionHandle) (line before : List ℕ) (accepted : ℕ) (w : W)
      → wire h w ≡ before ++ take accepted line
      → let (n, w') = network.write_some h (drop accepted line) w in
        wire h w' ≡ before ++ take (accepted + n) line
  write-step h line before accepted w e =
      law.write_appends h (drop accepted line) w
      ∙ ap (λ t. t ++ take (network.write_some h (drop accepted line) w).0 (drop accepted line)) e
      ∙ append_assoc before (take accepted line) _
      ∙ ap (◌++◌ before) (take-drop-append accepted _ line)

  pub send_loop-OnWire :
      (fuel : ℕ) (h : ConnectionHandle) (line before : List ℕ) (start accepted : ℕ) (w : W)
      → accepted ≤ length line
      → wire h w ≡ before ++ take accepted line
      → OnWire wire h line before (send_loop clock network fuel h line start accepted w)
  unfolding send_loop
  send_loop-OnWire zero h line before start accepted w a e = tt
  send_loop-OnWire (suc fuel) h line before start accepted w a e =
      let (now, w₁) = clock.monotonic_milliseconds w in
      let (written, w₂) = network.write_some h (drop accepted line) w₁ in
      let e₁ : wire h w₁ ≡ before ++ take accepted line = law.clock_quiet h w ∙ e in
      let e₂ : wire h w₂ ≡ before ++ take (accepted + written) line =
        write-step h line before accepted w₁ e₁ in
      let within : accepted + written ≤ length line =
        omega (arith, law.write_within h (drop accepted line) w₁, length-drop accepted line) in
      elim (Bool-cases (ltb accepted (length line))) [
        | inr all_sent ↦ rw all_sent (accepted, a, e, ground arith)
        | inl more ↦ rw more (elim (Bool-cases (leb transmit_deadline_ms (elapsed now start))) [
          | inl late ↦ rw late (accepted, a, e₁, ground arith)
          | inr early ↦ rw early (elim (Bool-cases (accepted + written == length line)) [
            | inl whole ↦
                rw whole (accepted + written, within, law.flush_quiet h w₂ ∙ e₂, ground arith)
            | inr part ↦ rw part (
                send_loop-OnWire fuel h line before start (accepted + written) (network.progress w₂)
                  within (law.progress_quiet h w₂ ∙ e₂))
          ])
        ])
      ]
