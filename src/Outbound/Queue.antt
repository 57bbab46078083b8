-- ===== src/Outbound/Queue.antt =====
-- The array of critical entries as a queue: what is queued, oldest first.
use cuddly_train.Base.{
  ℕ, zero, suc, ◌+◌, ◌-◌, ◌≤◌, ◌<◌, ◌≡◌, not, ◌&&◌, ltb, ◌∙◌, refl, ap, Bool, true, false, List, [],
  ◌∷◌, ◌++◌, arith, length, set, take, take-set_ge, take-set_next, length-set, if◌then◌else◌,
}
use cuddly_train.Counters.{Counters}
use cuddly_train.Wire.{LineView}
use cuddly_train.Outbound.{
  OutboundKind, queued, teardown_requested, invalid_line, CriticalEntry, empty_entry, Scheduler,
  entry_at, shift_down, remove_critical, enqueue_critical, is_valid_line, is_telemetry, line_bytes,
  priority_for, replace_telemetry,
}

abbrev pub queue : Scheduler → List CriticalEntry
queue s = take s.critical_count s.entries

pub record IsValid (s : Scheduler) : Type 0 where
  pub array_size : length s.entries ≡ 4
  pub count_fits : s.critical_count ≤ 4

-- The list without its element at an index.
unfoldable pub erase_at {ℓ} : {A : Type ℓ} → ℕ → List A → List A
erase_at i [] = []
erase_at zero (x ∷ xs) = xs
erase_at (suc i) (x ∷ xs) = x ∷ erase_at i xs

shift_down-cons :
    (n i : ℕ) (x : CriticalEntry) (es : List CriticalEntry)
    → shift_down n (suc i) (x ∷ es) ≡ x ∷ shift_down n i es
unfolding shift_down
shift_down-cons zero i x es = refl
shift_down-cons (suc n) i x es = shift_down-cons n (suc i) x (set es i (entry_at es (suc i)))

take-shift_down :
    (n i k : ℕ) (es : List CriticalEntry)
    → k ≡ i + n
    → k < length es
    → take k (shift_down n i es) ≡ erase_at i (take (suc k) es)
unfolding shift_down erase_at
take-shift_down n i k [] e h = absurd (omega arith)
take-shift_down n (suc i) zero (x ∷ es) e h = absurd (omega arith)
take-shift_down n (suc i) (suc k) (x ∷ es) e h =
    rw (shift_down-cons n i x es)
      (ap (◌∷◌ x) (take-shift_down n i k es (omega arith) (omega arith)))
take-shift_down zero zero zero (x ∷ es) e h = refl
take-shift_down zero zero (suc k) (x ∷ es) e h = absurd (omega arith)
take-shift_down (suc n) zero zero (x ∷ es) e h = absurd (omega arith)
take-shift_down (suc n) zero (suc k) (x ∷ []) e h = absurd (omega arith)
take-shift_down (suc n) zero (suc k) (x ∷ y ∷ es) e h =
    rw (shift_down-cons n zero y (y ∷ es))
      (ap (◌∷◌ y) (take-shift_down n zero k (y ∷ es) (omega arith) (omega arith)))

length-shift_down : (n i : ℕ) (es : List CriticalEntry) → length (shift_down n i es) ≡ length es
unfolding shift_down
length-shift_down zero i es = refl
length-shift_down (suc n) i es =
    length-shift_down n (suc i) (set es i (entry_at es (suc i))) ∙ length-set es i _

last_index : (n : ℕ) → 0 < n → suc (n - 1) ≡ n
last_index n h = omega arith

-- Removing an entry from the array removes it from the queue and keeps the order of the others.
pub queue-remove_critical :
    (i : ℕ) (s : Scheduler)
    → IsValid s
    → i < s.critical_count
    → queue (remove_critical i s) ≡ erase_at i (queue s)
unfolding remove_critical
queue-remove_critical i s v h = ground (
  arith,
  v.array_size,
  take-set_ge (s.critical_count - 1) (s.critical_count - 1)
      (shift_down (s.critical_count - 1 - i) i s.entries) empty_entry,
  take-shift_down (s.critical_count - 1 - i) i (s.critical_count - 1) s.entries,
  last_index s.critical_count,
)

pub remove_critical-IsValid : (i : ℕ) (s : Scheduler) → IsValid s → IsValid (remove_critical i s)
unfolding remove_critical
remove_critical-IsValid i s v = ground (
  arith,
  v.array_size,
  length-shift_down (s.critical_count - 1 - i) i s.entries,
  length-set (shift_down (s.critical_count - 1 - i) i s.entries) (s.critical_count - 1) empty_entry,
)

-- What `enqueueCritical` accepts.
abbrev pub accepts : OutboundKind → LineView → Scheduler → Bool
accepts kind line s = not (is_telemetry kind) && is_valid_line line && ltb s.critical_count 4

-- The entry that it makes of a line.
abbrev pub queued_entry : OutboundKind → LineView → CriticalEntry
queued_entry kind line = record {
  kind = kind;
  priority = priority_for kind;
  bytes = line_bytes line;
  active = true;
}

-- On a valid scheduler, a line is queued exactly when it is a critical line that ends in its newline, is not empty, fits
-- the transmit limit, and one of the four places is free. It then stands behind all lines that were
-- queued before it, whole and under the priority of its kind; otherwise nothing changes, and the
-- caller is told whether the line or the full queue is the reason.
pub enqueue_critical_lem :
    (kind : OutboundKind) (line : LineView) (s : Scheduler)
    → IsValid s
    → let (result, s') = enqueue_critical kind line s in
      IsValid s'
      × (s'.telemetry_active ≡ s.telemetry_active)
      × (accepts kind line s ≡ true
          → (result ≡ queued) × (queue s' ≡ queue s ++ (queued_entry kind line ∷ [])))
      × (accepts kind line s ≡ false
          → (s' ≡ s)
            × (result ≡ (
                if not (is_telemetry kind) && is_valid_line line
                then teardown_requested
                else invalid_line)))
unfolding enqueue_critical
enqueue_critical_lem kind line s v =
    let e = queued_entry kind line in
    let fits = take-set_next s.critical_count s.entries e in
    let sized = length-set s.entries s.critical_count e in
    (
      ground (arith, v.array_size, sized),
      ground arith,
      ground (arith, v.array_size, fits),
      ground arith,
    )

pub replace_telemetry-IsValid :
    (line : LineView) (s : Scheduler) (c : Counters)
    → IsValid s
    → let (result, s', c') = replace_telemetry line (s, c) in IsValid s' × (queue s' ≡ queue s)
unfolding replace_telemetry
replace_telemetry-IsValid line s c v = ground arith
