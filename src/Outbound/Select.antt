-- ===== src/Outbound/Select.antt =====
-- Which critical line is sent next.
use native.Mathlib.Decide.{ℕ_discrete}
use mathlib.Core.Logic.{◌⊎◌}
use cuddly_train.Base.{
  ℕ, zero, suc, ◌+◌, ◌-◌, ◌≤◌, ◌<◌, ◌≡◌, inl, inr, List, some, none, arith, ltb, Bool-cases,
}
use cuddly_train.Outbound.{
  CriticalEntry, Scheduler, entry_at, priority_code, select_from, select_critical_index,
}

abbrev pub code_at : List CriticalEntry → ℕ → ℕ
code_at es i = priority_code (entry_at es i).priority

-- Among the first `n` entries, the one at `i` has the most urgent priority, and comes before every
-- other one of that priority.
pub record IsFirstBest (es : List CriticalEntry) (n i : ℕ) : Type 0 where
  pub inside : i < n
  pub best : (k : ℕ) → k < n → code_at es i ≤ code_at es k
  pub first : (k : ℕ) → k < i → code_at es i < code_at es k

IsFirstBest-keep :
    (es : List CriticalEntry) (i j : ℕ)
    → IsFirstBest es i j
    → code_at es j ≤ code_at es i
    → IsFirstBest es (suc i) j
IsFirstBest-keep es i j v h = record {
  inside = omega (arith, v.inside);
  best = λ k l. elim (ℕ_discrete k i) [ yes e ↦ rw e h | no e ↦ v.best k (omega arith) ];
  first = v.first;
}

IsFirstBest-move :
    (es : List CriticalEntry) (i j : ℕ)
    → IsFirstBest es i j
    → code_at es i < code_at es j
    → IsFirstBest es (suc i) i
IsFirstBest-move es i j v h = record {
  inside = omega arith;
  best = λ k l. elim (ℕ_discrete k i) [
    | yes e ↦ rw e (omega arith)
    | no e ↦ omega (arith, v.best k (omega arith))
  ];
  first = λ k l. omega (arith, v.best k l);
}

select_from-IsFirstBest :
    (n i j m : ℕ) (es : List CriticalEntry)
    → m ≡ i + n
    → IsFirstBest es i j
    → IsFirstBest es m (select_from n i j es)
unfolding select_from
select_from-IsFirstBest zero i j m es e v = let e' : m ≡ i = omega arith in rw e' v
select_from-IsFirstBest (suc n) i j m es e v =
    elim (Bool-cases (ltb (code_at es i) (code_at es j))) [
      | inl h ↦ rw h (
          select_from-IsFirstBest n (suc i) i m es (omega arith)
            (IsFirstBest-move es i j v (ground arith)))
      | inr h ↦ rw h (
          select_from-IsFirstBest n (suc i) j m es (omega arith)
            (IsFirstBest-keep es i j v (ground arith)))
    ]

IsFirstBest-start : (es : List CriticalEntry) → IsFirstBest es 1 0
IsFirstBest-start es = record {
  inside = omega arith;
  best = λ k l. let e : k ≡ 0 = omega arith in rw e (omega arith);
  first = λ k l. absurd (omega arith);
}

-- The line chosen is the most urgent one (safety events before command responses before heartbeat
-- acknowledgements), and the oldest of its priority; none is chosen exactly when none is queued.
pub select_critical_index_lem :
    (s : Scheduler)
    → ((s.critical_count ≡ 0) × (select_critical_index s ≡ none))
      ⊎ ((i : ℕ) × (select_critical_index s ≡ some i) × IsFirstBest s.entries s.critical_count i)
unfolding select_critical_index
select_critical_index_lem s = elim (ℕ_discrete s.critical_count 0) [
  | yes e ↦ inl (e, ground arith)
  | no e ↦ inr (
    select_from (s.critical_count - 1) 1 0 s.entries,
    ground arith,
    select_from-IsFirstBest (s.critical_count - 1) 1 0 s.critical_count s.entries (omega arith)
        (IsFirstBest-start s.entries),
  )
]
