-- ===== src/Inbound/Utf8/Reference.antt =====
-- UTF-8 as the encoding of Unicode scalar values.
use cuddly_train.Base.{
  ℕ, ◌+◌, ◌/◌, ◌%◌, ◌≤◌, ◌<◌, ◌≡◌, ◌⊎◌, List, [], ◌∷◌, ◌++◌, ltb, if◌then◌else◌,
}

-- A scalar value is a code point that is no surrogate.
abbrev pub IsScalar : ℕ → Type 0
IsScalar n = (n < 0xD800) ⊎ ((0xE000 ≤ n) × (n < 0x110000))

unfoldable pub encode : ℕ → List ℕ
encode n =
    if ltb n 0x80
    then n ∷ []
    else if ltb n 0x800
    then (0xC0 + n / 64) ∷ (0x80 + n % 64) ∷ []
    else if ltb n 0x10000
    then (0xE0 + n / 4096) ∷ (0x80 + n / 64 % 64) ∷ (0x80 + n % 64) ∷ []
    else (0xF0 + n / 262144) ∷ (0x80 + n / 4096 % 64) ∷ (0x80 + n / 64 % 64) ∷ (0x80 + n % 64) ∷ []

unfoldable pub encode_all : List ℕ → List ℕ
unfolding encode
encode_all [] = []
encode_all (n ∷ ns) = encode n ++ encode_all ns

abbrev pub AreScalar : List ℕ → Type 0
AreScalar [] = Unit {0}
AreScalar (n ∷ ns) = IsScalar n × AreScalar ns

pub record Encoding (bytes : List ℕ) : Type 0 where
  pub scalars : List ℕ
  pub are_scalar : AreScalar scalars
  pub encoded : bytes ≡ encode_all scalars
