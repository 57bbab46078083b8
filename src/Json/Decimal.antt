-- ===== src/Json/Decimal.antt =====
-- Numbers in decimal, as `snprintf` prints them under `%llu` and `%ld`, and the reader that undoes it.
use native.Mathlib.Nat.{pow-suc}
use cuddly_train.Base.{
  ℕ, zero, suc, ◌+◌, ◌-◌, ◌*◌, ◌/◌, ◌%◌, ◌^◌, ◌≤◌, ◌<◌, ◌≡◌, refl, List, [], ◌∷◌, ◌++◌, arith, ltb,
  if◌then◌else◌, length, length-append,
}

-- `n` in at most `fuel` digits.
unfoldable pub decimal_from : ℕ → ℕ → List ℕ
decimal_from zero n = []
decimal_from (suc fuel) n =
    let higher = decimal_from fuel (n / 10) in
    if ltb n 10 then (b'0' + n) ∷ [] else higher ++ ((b'0' + n % 10) ∷ [])

-- Twenty digits are enough for a `uint64_t`.
unfoldable pub decimal : ℕ → List ℕ
unfolding decimal_from
decimal n = decimal_from 20 n

-- A signed value: `negsuc n` is `-(n + 1)`.
pub data ℤ : Type 0 where
  pos negsuc : ℕ → ℤ

unfoldable pub decimal_int : ℤ → List ℕ
decimal_int (pos n) = decimal n
decimal_int (negsuc n) = b'-' ∷ decimal (n + 1)

-- The value of a run of digits.
unfoldable pub value_from : ℕ → List ℕ → ℕ
value_from acc [] = acc
value_from acc (d ∷ ds) = value_from (acc * 10 + (d - b'0')) ds

value_from-append :
    (acc : ℕ) (xs ys : List ℕ) → value_from acc (xs ++ ys) ≡ value_from (value_from acc xs) ys
unfolding value_from
value_from-append acc [] ys = refl
value_from-append acc (x ∷ xs) ys = value_from-append (acc * 10 + (x - b'0')) xs ys

value-decimal_from : (k n : ℕ) → n < 10 ^ k → value_from 0 (decimal_from k n) ≡ n
unfolding decimal_from value_from
value-decimal_from zero n h = omega arith
value-decimal_from (suc k) n h = ground (
  arith,
  pow-suc 10 k,
  value-decimal_from k (n / 10),
  value_from-append 0 (decimal_from k (n / 10)) ((b'0' + n % 10) ∷ []),
)

-- The decimal of any 64-bit value reads back as that value.
pub value-decimal : (n : ℕ) → n < 2 ^ 64 → value_from 0 (decimal n) ≡ n
unfolding decimal
value-decimal n h = value-decimal_from 20 n (omega arith)

length-decimal_from : (k n : ℕ) → length (decimal_from k n) ≤ k
unfolding decimal_from
length-decimal_from zero n = omega arith
length-decimal_from (suc k) n = ground (
  arith,
  length-decimal_from k (n / 10),
  length-append (decimal_from k (n / 10)) ((b'0' + n % 10) ∷ []),
)

pub length-decimal : (n : ℕ) → length (decimal n) ≤ 20
unfolding decimal
length-decimal n = length-decimal_from 20 n
