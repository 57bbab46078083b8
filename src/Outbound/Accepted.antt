-- ===== src/Outbound/Accepted.antt =====
-- What `enqueueCritical` of src/core/OutboundScheduler.h   told by the bytes of the line.
use cuddly_train.Base.{
  ℕ, ◌≤◌, ◌<◌, ◌≡◌, ◌≢◌, ◌↔◌, ◌∙◌, sym, refl, ap, true, false, not, ◌&&◌, List, [], ◌∷◌, ◌++◌, some,
  none, arith, ltb, length, last_or, length-append, Bool-cases, inl, inr, if◌then◌else◌,
}
use cuddly_train.Wire.{LineView}
use cuddly_train.Outbound.{
  OutboundKind, queued, teardown_requested, invalid_line, telemetry, Scheduler, enqueue_critical,
  is_telemetry, is_valid_line,
}
use cuddly_train.Outbound.Queue.{queue, IsValid, queued_entry, enqueue_critical_lem}

-- A line of at most 8192 bytes, the last of which is its newline.
pub record IsLine (line : LineView) : Type 0 where
  pub text : List ℕ
  pub ends : line ≡ some (text ++ (b'\n' ∷ []))
  pub short : length text < 8192

-- A list that is not empty, by what stands before its last element.
before_last : List ℕ → List ℕ
before_last [] = []
before_last (x ∷ []) = []
before_last (x ∷ y ∷ ys) = x ∷ before_last (y ∷ ys)

before_last-last :
    (x : ℕ) (xs : List ℕ) → x ∷ xs ≡ before_last (x ∷ xs) ++ (last_or (x ∷ xs) 0 ∷ [])
unfolding before_last
before_last-last x [] = refl
before_last-last x (y ∷ ys) = ap (◌∷◌ x) (before_last-last y ys)

last_or-append : (xs : List ℕ) (y d : ℕ) → last_or (xs ++ (y ∷ [])) d ≡ y
last_or-append [] y d = refl
last_or-append (x ∷ xs) y d = last_or-append xs y x

pub is_valid_line-IsLine : (line : LineView) → is_valid_line line ≡ true → IsLine line
unfolding is_valid_line
is_valid_line-IsLine none h = cc
is_valid_line-IsLine (some []) h = cc
is_valid_line-IsLine (some (x ∷ xs)) h =
    let newline : last_or (x ∷ xs) 0 ≡ b'\n' = ground (arith, h) in
    let whole = before_last-last x xs ∙ ap (λ b. before_last (x ∷ xs) ++ (b ∷ [])) newline in
    record {
      text = before_last (x ∷ xs);
      ends = ap some whole;
      short = ground (arith, h, ap length whole, length-append (before_last (x ∷ xs)) (b'\n' ∷ []));
    }

pub IsLine-is_valid_line : (line : LineView) → IsLine line → is_valid_line line ≡ true
unfolding is_valid_line
IsLine-is_valid_line line l =
    rw (l.ends, is_valid_line)
      (ground (arith, l.short, last_or-append l.text b'\n' 0, length-append l.text (b'\n' ∷ [])))

-- A line that may be queued: it is not telemetry, and it ends as a line does.
abbrev pub IsCritical : OutboundKind → LineView → Type 0
IsCritical kind line = (kind ≢ telemetry) × IsLine line

telemetry-is : (kind : OutboundKind) → is_telemetry kind ≡ true → kind ≡ telemetry
telemetry-is kind h = ground arith

accepted-IsCritical :
    (kind : OutboundKind) (line : LineView)
    → (not (is_telemetry kind) && is_valid_line line) ≡ true
    → IsCritical kind line
accepted-IsCritical kind line h = (
  λ e. true≢false (sym (ground (arith, h)) ∙ ap is_telemetry e),
  is_valid_line-IsLine line (ground (arith, h)),
)
  where
    true≢false : (false ≡ true) → ⊥
    true≢false e = cc

IsCritical-accepted :
    (kind : OutboundKind) (line : LineView)
    → IsCritical kind line
    → (not (is_telemetry kind) && is_valid_line line) ≡ true
IsCritical-accepted kind line (k, l) = elim (Bool-cases (is_telemetry kind)) [
  | inl t ↦ absurd (k (telemetry-is kind t))
  | inr n ↦ rw (n, IsLine-is_valid_line line l) refl
]

-- On a valid scheduler, a line is queued exactly when it is not telemetry, is not empty and has its
-- newline as the last of at most 8192 bytes, and one of the four places is free. It then stands
-- behind all lines that were queued before it, whole and under the priority of its kind; otherwise
-- nothing changes, and the caller is told to tear down exactly if only the place is missing.
pub enqueue_critical-IsCritical :
    (kind : OutboundKind) (line : LineView) (s : Scheduler)
    → IsValid s
    → let (result, s') = enqueue_critical kind line s in
      IsValid s'
      × (s'.telemetry_active ≡ s.telemetry_active)
      × ((result ≡ queued) ↔ (IsCritical kind line × (s.critical_count < 4)))
      × ((result ≡ teardown_requested) ↔ (IsCritical kind line × (4 ≤ s.critical_count)))
      × (result ≡ queued → queue s' ≡ queue s ++ (queued_entry kind line ∷ []))
      × (result ≢ queued → s' ≡ s)
enqueue_critical-IsCritical kind line s v =
    let (valid, same, taken, refused) = enqueue_critical_lem kind line s v in
    let critical = accepted-IsCritical kind line in
    let accepted = IsCritical-accepted kind line in
    elim (Bool-cases (not (is_telemetry kind) && is_valid_line line)) [
      | inl c ↦ elim (Bool-cases (ltb s.critical_count 4)) [
        | inl room ↦
            let t = taken (ground (arith, c, room)) in
            (
              valid,
              same,
              (λ q. (critical c, ground (arith, room)), λ d. t.0),
              (λ q. absurd (clash (sym t.0 ∙ q)), λ d. absurd (ground (arith, d.1, room))),
              λ q. t.1,
              λ n. absurd (n t.0),
            )
        | inr full ↦
            let r = refused (ground (arith, c, full)) in
            let told = r.1 ∙ ap (λ b. if b then teardown_requested else invalid_line) c in
            (
              valid,
              same,
              (λ q. absurd (clash (sym q ∙ told)), λ d. absurd (ground (arith, d.1, full))),
              (λ q. (critical c, ground (arith, full)), λ d. told),
              λ q. absurd (clash (sym q ∙ told)),
              λ n. r.0,
            )
      ]
      | inr c ↦
          let r = refused (ground (arith, c)) in
          let told = r.1 ∙ ap (λ b. if b then teardown_requested else invalid_line) c in
          (
            valid,
            same,
            (λ q. absurd (no_queue (sym q ∙ told)), λ d. absurd (no_bool (sym (accepted d.0) ∙ c))),
            (
              λ q. absurd (no_teardown (sym q ∙ told)),
              λ d. absurd (no_bool (sym (accepted d.0) ∙ c)),
            ),
            λ q. absurd (no_queue (sym q ∙ told)),
            λ n. r.0,
          )
    ]
  where
    clash : (queued ≡ teardown_requested) → ⊥
    clash e = cc

    no_queue : (queued ≡ invalid_line) → ⊥
    no_queue e = cc

    no_teardown : (teardown_requested ≡ invalid_line) → ⊥
    no_teardown e = cc

    no_bool : (true ≡ false) → ⊥
    no_bool e = cc
