-- ===== src/Inbound/Utf8/Exact.antt =====
-- `isValidUtf8` of src/core/InboundParser.h compared with UTF-8 as it is defined.
use cuddly_train.Base.{
  ℕ, zero, suc, ◌+◌, ◌/◌, ◌%◌, ◌≤◌, ◌<◌, ◌≡◌, ◌≢◌, ◌↔◌, ◌∙◌, ◌⊎◌, inl, inr, sym, refl, ap, Bool,
  true, false, List, [], ◌∷◌, ◌++◌, some, none, arith, ltb, length, length-drop, drop, Option-cases,
  Bool-cases,
}
use cuddly_train.Inbound.Utf8.{sequence_at, valid_from, is_valid_utf8}
use cuddly_train.Inbound.Utf8.Reference.{IsScalar, AreScalar, encode, encode_all, Encoding}
use cuddly_train.Inbound.Utf8.Sequences.{IsContinuation, sequence_at-Decoded}

-- A round of each length.
accepts_1 : (c : ℕ) (cs : List ℕ) → c < 0x80 → sequence_at c cs ≡ some 0
unfolding sequence_at
accepts_1 c cs h = ground (arith, h)

accepts_2 :
    (c d : ℕ) (cs : List ℕ)
    → 0xC2 ≤ c
    → c ≤ 0xDF
    → IsContinuation d
    → sequence_at c (d ∷ cs) ≡ some 1
unfolding sequence_at
accepts_2 c d cs h k t = ground (arith, h, k, t.0, t.1)

accepts_3 :
    (c d e : ℕ) (cs : List ℕ)
    → 0xE0 ≤ c
    → c ≤ 0xEF
    → IsContinuation d
    → IsContinuation e
    → (0xE0 < c) ⊎ (0xA0 ≤ d)
    → (c ≢ 0xED) ⊎ (d ≤ 0x9F)
    → sequence_at c (d ∷ e ∷ cs) ≡ some 2
unfolding sequence_at
accepts_3 c d e cs h k t u l s = ground (arith, h, k, t.0, t.1, u.0, u.1, l, s)

accepts_4 :
    (c d e f : ℕ) (cs : List ℕ)
    → 0xF0 ≤ c
    → c ≤ 0xF4
    → IsContinuation d
    → IsContinuation e
    → IsContinuation f
    → (0xF0 < c) ⊎ (0x90 ≤ d)
    → (c < 0xF4) ⊎ (d ≤ 0x8F)
    → sequence_at c (d ∷ e ∷ f ∷ cs) ≡ some 3
unfolding sequence_at
accepts_4 c d e f cs h k t u v l s = ground (arith, h, k, t.0, t.1, u.0, u.1, v.0, v.1, l, s)

-- The encoding of a scalar value is passed over.
encode_1 : (n : ℕ) → n < 0x80 → encode n ≡ n ∷ []
unfolding encode
encode_1 n h = ground (arith, h)

encode_2 : (n : ℕ) → 0x80 ≤ n → n < 0x800 → encode n ≡ (0xC0 + n / 64) ∷ (0x80 + n % 64) ∷ []
unfolding encode
encode_2 n l h = ground (arith, l, h)

encode_3 :
    (n : ℕ)
    → 0x800 ≤ n
    → n < 0x10000
    → encode n ≡ (0xE0 + n / 4096) ∷ (0x80 + n / 64 % 64) ∷ (0x80 + n % 64) ∷ []
unfolding encode
encode_3 n l h = ground (arith, l, h)

encode_4 :
    (n : ℕ)
    → 0x10000 ≤ n
    → encode n
      ≡ (0xF0 + n / 262144) ∷ (0x80 + n / 4096 % 64) ∷ (0x80 + n / 64 % 64) ∷ (0x80 + n % 64) ∷ []
unfolding encode
encode_4 n l = ground (arith, l)

continued : (n : ℕ) → IsContinuation (0x80 + n % 64)
continued n = (omega arith, omega arith)

below_or_above : (k n : ℕ) → (n < k) ⊎ (k ≤ n)
below_or_above k n = elim (Bool-cases (ltb n k)) [
  | inl h ↦ inl (ground (arith, h))
  | inr h ↦ inr (ground (arith, h))
]

not_high :
    (n : ℕ) → IsScalar n → n < 0x10000 → (0xE0 + n / 4096 ≢ 0xED) ⊎ (0x80 + n / 64 % 64 ≤ 0x9F)
not_high n (inl s) h = elim (below_or_above 0xD000 n) [
  | inl a ↦ inl (λ e. omega (arith, a, e))
  | inr a ↦ inr (omega (arith, s, a))
]
not_high n (inr s) h = inl (λ e. omega (arith, s.0, e))

not_low : (n : ℕ) → 0x800 ≤ n → (0xE0 < 0xE0 + n / 4096) ⊎ (0xA0 ≤ 0x80 + n / 64 % 64)
not_low n h = elim (below_or_above 0x1000 n) [
  | inl a ↦ inr (omega (arith, h, a))
  | inr a ↦ inl (omega (arith, a))
]

not_low_4 : (n : ℕ) → 0x10000 ≤ n → (0xF0 < 0xF0 + n / 262144) ⊎ (0x90 ≤ 0x80 + n / 4096 % 64)
not_low_4 n h = elim (below_or_above 0x40000 n) [
  | inl a ↦ inr (omega (arith, h, a))
  | inr a ↦ inl (omega (arith, a))
]

not_high_4 : (n : ℕ) → n < 0x110000 → (0xF0 + n / 262144 < 0xF4) ⊎ (0x80 + n / 4096 % 64 ≤ 0x8F)
not_high_4 n h = elim (below_or_above 0x100000 n) [
  | inl a ↦ inl (omega (arith, a))
  | inr a ↦ inr (omega (arith, h, a))
]

below_limit : (n : ℕ) → IsScalar n → n < 0x110000
below_limit n (inl s) = omega (arith, s)
below_limit n (inr s) = s.1

valid_from-accepted :
    (c : ℕ) (cs : List ℕ) (more : ℕ)
    → sequence_at c cs ≡ some more
    → valid_from 0 (c ∷ cs) ≡ valid_from more cs
unfolding valid_from
valid_from-accepted c cs more e =
    ap (λ o. elim o as (λ x. Bool) [ none ↦ false | some k ↦ valid_from k cs ]) e

valid_from-refused : (c : ℕ) (cs : List ℕ) → sequence_at c cs ≡ none → valid_from 0 (c ∷ cs) ≡ false
unfolding valid_from
valid_from-refused c cs e =
    ap (λ o. elim o as (λ x. Bool) [ none ↦ false | some k ↦ valid_from k cs ]) e

valid_from-encode :
    (n : ℕ) (rest : List ℕ) → IsScalar n → valid_from 0 (encode n ++ rest) ≡ valid_from 0 rest
unfolding valid_from
valid_from-encode n rest s = elim (below_or_above 0x80 n) [
  | inl a ↦ rw (encode_1 n a) (valid_from-accepted n rest 0 (accepts_1 n rest a))
  | inr a ↦ elim (below_or_above 0x800 n) [
    | inl b ↦ rw (encode_2 n a b) (
        valid_from-accepted (0xC0 + n / 64) ((0x80 + n % 64) ∷ rest) 1 (
          accepts_2 (0xC0 + n / 64) (0x80 + n % 64) rest (omega (arith, a)) (omega (arith, b))
            (continued n)))
    | inr b ↦ elim (below_or_above 0x10000 n) [
      | inl c ↦ rw (encode_3 n b c) (
          valid_from-accepted (0xE0 + n / 4096) ((0x80 + n / 64 % 64) ∷ (0x80 + n % 64) ∷ rest) 2 (
            accepts_3 (0xE0 + n / 4096) (0x80 + n / 64 % 64) (0x80 + n % 64) rest (omega arith)
              (omega (arith, c)) (continued (n / 64)) (continued n) (not_low n b) (not_high n s c)))
      | inr c ↦ rw (encode_4 n c) (
          valid_from-accepted (0xF0 + n / 262144)
            ((0x80 + n / 4096 % 64) ∷ (0x80 + n / 64 % 64) ∷ (0x80 + n % 64) ∷ rest) 3
            (accepts_4 (0xF0 + n / 262144) (0x80 + n / 4096 % 64) (0x80 + n / 64 % 64)
              (0x80 + n % 64) rest (omega arith) (omega (arith, below_limit n s))
              (continued (n / 4096)) (continued (n / 64)) (continued n) (not_low_4 n c)
              (not_high_4 n (below_limit n s))))
    ]
  ]
]

valid_from-encode_all : (ns : List ℕ) → AreScalar ns → valid_from 0 (encode_all ns) ≡ true
unfolding valid_from encode_all
valid_from-encode_all [] s = refl
valid_from-encode_all (n ∷ ns) s =
    valid_from-encode n (encode_all ns) s.0 ∙ valid_from-encode_all ns s.1

valid_from-drop : (k : ℕ) (cs : List ℕ) → valid_from k cs ≡ valid_from 0 (drop k cs)
unfolding valid_from
valid_from-drop zero cs = refl
valid_from-drop (suc k) [] = refl
valid_from-drop (suc k) (c ∷ cs) = valid_from-drop k cs

true_not_false : ¬ (true ≡ false)
true_not_false e = cc

valid_from-Encoding :
    (fuel : ℕ) (bytes : List ℕ) → length bytes ≤ fuel → valid_from 0 bytes ≡ true → Encoding bytes
unfolding valid_from encode_all
valid_from-Encoding fuel [] l h = record { scalars = []; are_scalar = tt; encoded = refl }
valid_from-Encoding zero (c ∷ cs) l h = absurd (omega (arith, l))
valid_from-Encoding (suc fuel) (c ∷ cs) l h = elim (Option-cases (sequence_at c cs)) [
  | inl e ↦ absurd (true_not_false (sym h ∙ valid_from-refused c cs e))
  | inr (more, e) ↦
      let d = sequence_at-Decoded c cs more e in
      let continues : valid_from more cs ≡ true = sym (valid_from-accepted c cs more e) ∙ h in
      let rest =
        valid_from-Encoding fuel (drop more cs) (omega (arith, l, length-drop more cs))
          (sym (valid_from-drop more cs) ∙ continues) in
      record {
        scalars = d.scalar ∷ rest.scalars;
        are_scalar = (d.is_scalar, rest.are_scalar);
        encoded = d.sequence ∙ ap (λ t. encode d.scalar ++ t) rest.encoded;
      }
]

-- A text of any length passes the check exactly if it is in UTF-8: the encodings of Unicode scalar
-- values one behind another, with no surrogate, no value above 0x10FFFF, no overlong form and no
-- sequence cut short.
pub is_valid_utf8_lem : (bytes : List ℕ) → (is_valid_utf8 (some bytes) ≡ true) ↔ Encoding bytes
unfolding is_valid_utf8
is_valid_utf8_lem bytes = (
  valid_from-Encoding (length bytes) bytes (omega arith),
  λ e. ap (valid_from 0) e.encoded ∙ valid_from-encode_all e.scalars e.are_scalar,
)
