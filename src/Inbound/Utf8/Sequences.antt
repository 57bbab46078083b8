-- ===== src/Inbound/Utf8/Sequences.antt =====
-- One round of `isValidUtf8` of src/core/InboundParser.h, and the scalar value of its sequence.
use mathlib.Core.Path.{subst}
use cuddly_train.Base.{
  ℕ, ◌+◌, ◌-◌, ◌*◌, ◌≤◌, ◌<◌, ◌≡◌, ◌⊎◌, inl, inr, refl, Bool, true, false, not, ◌||◌, List, [], ◌∷◌,
  ◌++◌, Option, some, none, arith, ◌==◌, leb, if◌then◌else◌, length, get_or, drop, Bool-cases,
}
use cuddly_train.Inbound.Utf8.{in_range, is_continuation, long_sequence_at, sequence_at}
use cuddly_train.Inbound.Utf8.Reference.{IsScalar, encode}

-- The round at `c` accepts the encoding of a scalar value and leaves the bytes behind it.
pub record Decoded (c : ℕ) (cs : List ℕ) (more : ℕ) : Type 0 where
  pub scalar : ℕ
  pub is_scalar : IsScalar scalar
  pub sequence : c ∷ cs ≡ encode scalar ++ drop more cs
  pub room : more ≤ length cs

one_byte : (c : ℕ) (cs : List ℕ) → c ≤ 0x7F → Decoded c cs 0
unfolding encode
one_byte c cs h = record {
  scalar = c;
  is_scalar = inl (omega (arith, h));
  sequence = ground (arith, h);
  room = omega arith;
}

abbrev pub IsContinuation : ℕ → Type 0
IsContinuation d = (0x80 ≤ d) × (d ≤ 0xBF)

two_bytes : (c d : ℕ) (cs : List ℕ) → 0xC2 ≤ c → c ≤ 0xDF → IsContinuation d → Decoded c (d ∷ cs) 1
unfolding encode
two_bytes c d cs h k t =
    let n = (c - 0xC0) * 64 + (d - 0x80) in
    record {
      scalar = n;
      is_scalar = inl (omega (arith, h, k, t.0, t.1));
      sequence = ground (arith, h, k, t.0, t.1);
      room = omega arith;
    }

abbrev value_3 : ℕ → ℕ → ℕ → ℕ
value_3 c d e = (c - 0xE0) * 4096 + (d - 0x80) * 64 + (e - 0x80)

three_bytes :
    (c d e : ℕ) (cs : List ℕ)
    → 0xE0 ≤ c
    → c ≤ 0xEF
    → IsContinuation d
    → IsContinuation e
    → 0x800 ≤ value_3 c d e
    → IsScalar (value_3 c d e)
    → Decoded c (d ∷ e ∷ cs) 2
unfolding encode
three_bytes c d e cs h k t u low s = record {
  scalar = value_3 c d e;
  is_scalar = s;
  sequence = ground (arith, h, k, t.0, t.1, u.0, u.1, low);
  room = omega arith;
}

abbrev value_4 : ℕ → ℕ → ℕ → ℕ → ℕ
value_4 c d e f = (c - 0xF0) * 262144 + (d - 0x80) * 4096 + (e - 0x80) * 64 + (f - 0x80)

four_bytes :
    (c d e f : ℕ) (cs : List ℕ)
    → 0xF0 ≤ c
    → c ≤ 0xF4
    → IsContinuation d
    → IsContinuation e
    → IsContinuation f
    → 0x10000 ≤ value_4 c d e f
    → value_4 c d e f < 0x110000
    → Decoded c (d ∷ e ∷ f ∷ cs) 3
unfolding encode
four_bytes c d e f cs h k t u v low high = record {
  scalar = value_4 c d e f;
  is_scalar = inr (omega (arith, low), high);
  sequence = ground (arith, h, k, t.0, t.1, u.0, u.1, v.0, v.1, low, high);
  room = omega arith;
}

-- Which branch a test took.
choose :
    (b : Bool) (x y : Option ℕ) (k : ℕ)
    → (if b then x else y) ≡ some k
    → ((b ≡ true) × (x ≡ some k)) ⊎ ((b ≡ false) × (y ≡ some k))
choose true x y k h = inl (refl, h)
choose false x y k h = inr (refl, h)

-- The branches, by their lengths.
branch_2 :
    (c : ℕ) (cs : List ℕ) (more : ℕ)
    → in_range c 0xC2 0xDF ≡ true
    → (if leb (length cs) 0 || not (is_continuation (get_or cs 0 0)) then none else some 1)
      ≡ some more
    → Decoded c cs more
branch_2 c [] more r h = cc
branch_2 c (d ∷ cs) more r h =
    elim (choose (leb (length (d ∷ cs)) 0 || not (is_continuation d)) none (some 1) more h) [
      | inl (_, e) ↦ cc
      | inr (g, e) ↦
          let same : 1 ≡ more = cc in
          subst (Decoded c (d ∷ cs)) same (
            two_bytes c d cs (ground (arith, r)) (ground (arith, r))
              (ground (arith, g), ground (arith, g)))
    ]

branch_3 :
    (c low high : ℕ) (cs : List ℕ) (more : ℕ)
    → 0xE0 ≤ c
    → c ≤ 0xEF
    → 0x80 ≤ low
    → high ≤ 0xBF
    → ((d e : ℕ)
        → low ≤ d
        → d ≤ high
        → IsContinuation e
        → (0x800 ≤ value_3 c d e) × IsScalar (value_3 c d e))
    → (if leb (length cs) 1
          || not (in_range (get_or cs 0 0) low high)
          || not (is_continuation (get_or cs 1 0))
        then none
        else some 2)
      ≡ some more
    → Decoded c cs more
branch_3 c low high [] more a b l m s h = cc
branch_3 c low high (d ∷ []) more a b l m s h = cc
branch_3 c low high (d ∷ e ∷ cs) more a b l m s h =
    elim (choose
      (leb (length (d ∷ e ∷ cs)) 1 || not (in_range d low high) || not (is_continuation e)) none
      (some 2) more h) [
        | inl (_, k) ↦ cc
        | inr (g, k) ↦
            let v : IsContinuation e = (ground (arith, g), ground (arith, g)) in
            let above : low ≤ d = ground (arith, g) in
            let below : d ≤ high = ground (arith, g) in
            let t = s d e above below v in
            let same : 2 ≡ more = cc in
            subst (Decoded c (d ∷ e ∷ cs)) same (
              three_bytes c d e cs a b (omega (arith, l, above), omega (arith, m, below)) v t.0 t.1)
      ]

branch_4 :
    (c low high : ℕ) (cs : List ℕ) (more : ℕ)
    → 0xF0 ≤ c
    → c ≤ 0xF4
    → 0x80 ≤ low
    → high ≤ 0xBF
    → ((d e f : ℕ)
        → low ≤ d
        → d ≤ high
        → IsContinuation e
        → IsContinuation f
        → (0x10000 ≤ value_4 c d e f) × (value_4 c d e f < 0x110000))
    → (if leb (length cs) 2
          || not (in_range (get_or cs 0 0) low high)
          || not (is_continuation (get_or cs 1 0))
          || not (is_continuation (get_or cs 2 0))
        then none
        else some 3)
      ≡ some more
    → Decoded c cs more
branch_4 c low high [] more a b l m s h = cc
branch_4 c low high (d ∷ []) more a b l m s h = cc
branch_4 c low high (d ∷ e ∷ []) more a b l m s h = cc
branch_4 c low high (d ∷ e ∷ f ∷ cs) more a b l m s h =
    elim (choose
      (leb (length (d ∷ e ∷ f ∷ cs)) 2
        || not (in_range d low high)
        || not (is_continuation e)
        || not (is_continuation f))
      none (some 3) more h) [
        | inl (_, k) ↦ cc
        | inr (g, k) ↦
            let v : IsContinuation e = (ground (arith, g), ground (arith, g)) in
            let w : IsContinuation f = (ground (arith, g), ground (arith, g)) in
            let above : low ≤ d = ground (arith, g) in
            let below : d ≤ high = ground (arith, g) in
            let t = s d e f above below v w in
            let same : 3 ≡ more = cc in
            subst (Decoded c (d ∷ e ∷ f ∷ cs)) same (
              four_bytes c d e f cs a b (omega (arith, l, above), omega (arith, m, below)) v w t.0
                t.1)
      ]

lead_cases :
    (c : ℕ)
    → (in_range c 0xE1 0xEC || in_range c 0xEE 0xEF) ≡ true
    → ((0xE1 ≤ c) × (c ≤ 0xEC)) ⊎ ((0xEE ≤ c) × (c ≤ 0xEF))
lead_cases c h = elim (Bool-cases (in_range c 0xE1 0xEC)) [
  | inl a ↦ inl (ground (arith, a), ground (arith, a))
  | inr a ↦ inr (ground (arith, a, h), ground (arith, a, h))
]

-- With these leading bytes there is no surrogate, whatever follows.
lead-IsScalar :
    (c d e : ℕ)
    → ((0xE1 ≤ c) × (c ≤ 0xEC)) ⊎ ((0xEE ≤ c) × (c ≤ 0xEF))
    → 0x80 ≤ d
    → d ≤ 0xBF
    → IsContinuation e
    → (0x800 ≤ value_3 c d e) × IsScalar (value_3 c d e)
lead-IsScalar c d e (inl (a, b)) u v w =
    (omega (arith, a, u, w.0), inl (omega (arith, a, b, u, v, w.0, w.1)))
lead-IsScalar c d e (inr (a, b)) u v w =
    (omega (arith, a, u, w.0), inr (omega (arith, a, u, w.0), omega (arith, b, v, w.1)))

long-Decoded :
    (c : ℕ) (cs : List ℕ) (more : ℕ) → long_sequence_at c cs ≡ some more → Decoded c cs more
long-Decoded c cs more h = elim (choose (c == 0xF0) _ _ more h) [
  | inl (t, e) ↦
      let at : c ≡ 0xF0 = ground (arith, t) in
      branch_4 c 0x90 0xBF cs more (omega (arith, at)) (omega (arith, at)) (omega arith)
        (omega arith)
        (λ d x y u v w z. (
          omega (arith, at, u, v, w.0, w.1, z.0, z.1),
          omega (arith, at, u, v, w.0, w.1, z.0, z.1),
        ))
        e
  | inr (f₁, h₁) ↦ elim (choose (in_range c 0xF1 0xF3) _ _ more h₁) [
    | inl (t, e) ↦
        let above : 0xF1 ≤ c = ground (arith, t) in
        let below : c ≤ 0xF3 = ground (arith, t) in
        branch_4 c 0x80 0xBF cs more (omega (arith, above)) (omega (arith, below)) (omega arith)
          (omega arith)
          (λ d x y u v w z. (
            omega (arith, above, below, u, v, w.0, w.1, z.0, z.1),
            omega (arith, above, below, u, v, w.0, w.1, z.0, z.1),
          ))
          e
    | inr (f₂, h₂) ↦ elim (choose (c == 0xF4) _ _ more h₂) [
      | inl (t, e) ↦
          let at : c ≡ 0xF4 = ground (arith, t) in
          branch_4 c 0x80 0x8F cs more (omega (arith, at)) (omega (arith, at)) (omega arith)
            (omega arith)
            (λ d x y u v w z. (
              omega (arith, at, u, v, w.0, w.1, z.0, z.1),
              omega (arith, at, u, v, w.0, w.1, z.0, z.1),
            ))
            e
      | inr (f₃, h₃) ↦ cc
    ]
  ]
]

pub sequence_at-Decoded :
    (c : ℕ) (cs : List ℕ) (more : ℕ) → sequence_at c cs ≡ some more → Decoded c cs more
unfolding sequence_at
sequence_at-Decoded c cs more h = elim (choose (leb c 0x7F) _ _ more h) [
  | inl (t, e) ↦
      let same : 0 ≡ more = cc in subst (Decoded c cs) same (one_byte c cs (ground (arith, t)))
  | inr (f₁, h₁) ↦ elim (choose (in_range c 0xC2 0xDF) _ _ more h₁) [
    | inl (t, e) ↦ branch_2 c cs more t e
    | inr (f₂, h₂) ↦ elim (choose (c == 0xE0) _ _ more h₂) [
      | inl (t, e) ↦
          let at : c ≡ 0xE0 = ground (arith, t) in
          branch_3 c 0xA0 0xBF cs more (omega (arith, at)) (omega (arith, at)) (omega arith)
            (omega arith)
            (λ d x u v w.
              (omega (arith, at, u, v, w.0, w.1), inl (omega (arith, at, u, v, w.0, w.1))))
            e
      | inr (f₃, h₃) ↦ elim (choose (in_range c 0xE1 0xEC || in_range c 0xEE 0xEF) _ _ more h₃) [
        | inl (t, e) ↦
            let lead = lead_cases c t in
            branch_3 c 0x80 0xBF cs more (ground (arith, lead)) (ground (arith, lead)) (omega arith)
              (omega arith) (λ d x u v w. lead-IsScalar c d x lead u v w) e
        | inr (f₄, h₄) ↦ elim (choose (c == 0xED) _ _ more h₄) [
          | inl (t, e) ↦
              let at : c ≡ 0xED = ground (arith, t) in
              branch_3 c 0x80 0x9F cs more (omega (arith, at)) (omega (arith, at)) (omega arith)
                (omega arith)
                (λ d x u v w.
                  (omega (arith, at, u, v, w.0, w.1), inl (omega (arith, at, u, v, w.0, w.1))))
                e
          | inr (f₅, h₅) ↦ long-Decoded c cs more h₅
        ]
      ]
    ]
  ]
]
