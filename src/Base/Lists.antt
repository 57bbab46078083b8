-- ===== src/Base/Lists.antt =====
-- Lists measured and indexed by native numbers; fixed arrays are lists of a constant length.
use Prim.Native.Nat.{ℕ, zero, suc, ◌+◌, ◌-◌, ◌≤◌, ◌<◌, min}
use mathlib.Core.Path.{◌≡◌, refl, ap}
use mathlib.Core.List.{List, [], ◌∷◌, ◌++◌}
use mathlib.Core.Option.{Option, none, some}
use native.Mathlib.Omega.{arith}
use native.Mathlib.Numerals.{add-one}

module _ {ℓ} {A : Type ℓ} where
  abbrev pub length : List A → ℕ
  length [] = 0
  length (x ∷ xs) = suc (length xs)

  abbrev pub get_elem? : List A → ℕ → Option A
  get_elem? [] i = none
  get_elem? (x ∷ xs) zero = some x
  get_elem? (x ∷ xs) (suc i) = get_elem? xs i

  abbrev pub get_or : List A → ℕ → A → A
  get_or [] i d = d
  get_or (x ∷ xs) zero d = x
  get_or (x ∷ xs) (suc i) d = get_or xs i d

  -- A write out of bounds changes nothing.
  abbrev pub set : List A → ℕ → A → List A
  set [] i v = []
  set (x ∷ xs) zero v = v ∷ xs
  set (x ∷ xs) (suc i) v = x ∷ set xs i v

  abbrev pub take : ℕ → List A → List A
  take zero xs = []
  take (suc n) [] = []
  take (suc n) (x ∷ xs) = x ∷ take n xs

  abbrev pub drop : ℕ → List A → List A
  drop zero xs = xs
  drop (suc n) [] = []
  drop (suc n) (x ∷ xs) = drop n xs

  abbrev pub replicate : ℕ → A → List A
  replicate zero a = []
  replicate (suc n) a = a ∷ replicate n a

  -- The last element, and a default for the empty list.
  abbrev pub last_or : List A → A → A
  last_or [] d = d
  last_or (x ∷ xs) d = last_or xs x

module _ {ℓ} {A : Type ℓ} where
  pub length-append : (xs ys : List A) → length (xs ++ ys) ≡ length xs + length ys
  length-append [] ys = omega arith
  length-append (x ∷ xs) ys = omega (arith, length-append xs ys)

  pub length-set : (xs : List A) (i : ℕ) (v : A) → length (set xs i v) ≡ length xs
  length-set [] i v = refl
  length-set (x ∷ xs) zero v = refl
  length-set (x ∷ xs) (suc i) v = ap suc (length-set xs i v)

  pub length-take : (n : ℕ) (xs : List A) → length (take n xs) ≡ min n (length xs)
  length-take zero xs = omega arith
  length-take (suc n) [] = omega arith
  length-take (suc n) (x ∷ xs) = omega (arith, length-take n xs)

  pub length-drop : (n : ℕ) (xs : List A) → length (drop n xs) ≡ length xs - n
  length-drop zero xs = omega arith
  length-drop (suc n) [] = omega arith
  length-drop (suc n) (x ∷ xs) = omega (arith, length-drop n xs)

  pub length-replicate : (n : ℕ) (a : A) → length (replicate n a) ≡ n
  length-replicate zero a = refl
  length-replicate (suc n) a = ap suc (length-replicate n a)

  pub get_or-set : (xs : List A) (i : ℕ) (v d : A) → i < length xs → get_or (set xs i v) i d ≡ v
  get_or-set [] i v d h = absurd (omega arith)
  get_or-set (x ∷ xs) zero v d h = refl
  get_or-set (x ∷ xs) (suc i) v d h = get_or-set xs i v d (omega arith)

  -- A write elsewhere is not seen.
  pub get_or-set_lt :
      (xs : List A) (i j : ℕ) (v d : A) → i < j → get_or (set xs j v) i d ≡ get_or xs i d
  get_or-set_lt [] i j v d h = refl
  get_or-set_lt (x ∷ xs) i zero v d h = absurd (omega arith)
  get_or-set_lt (x ∷ xs) zero (suc j) v d h = refl
  get_or-set_lt (x ∷ xs) (suc i) (suc j) v d h = get_or-set_lt xs i j v d (omega arith)

  -- A write beyond a prefix leaves the prefix.
  pub take-set_ge : (n i : ℕ) (xs : List A) (v : A) → n ≤ i → take n (set xs i v) ≡ take n xs
  take-set_ge zero i xs v h = refl
  take-set_ge (suc n) i [] v h = refl
  take-set_ge (suc n) zero (x ∷ xs) v h = absurd (omega arith)
  take-set_ge (suc n) (suc i) (x ∷ xs) v h = ap (◌∷◌ x) (take-set_ge n i xs v (omega arith))

  -- Writing just past a prefix extends it.
  pub take-set_snoc :
      (n : ℕ) (xs : List A) (v : A)
      → n < length xs
      → take (suc n) (set xs n v) ≡ take n xs ++ (v ∷ [])
  take-set_snoc n [] v h = absurd (omega arith)
  take-set_snoc zero (x ∷ xs) v h = refl
  take-set_snoc (suc n) (x ∷ xs) v h = ap (◌∷◌ x) (take-set_snoc n xs v (omega arith))

  pub take-set_next :
      (n : ℕ) (xs : List A) (v : A)
      → n < length xs
      → take (n + 1) (set xs n v) ≡ take n xs ++ (v ∷ [])
  take-set_next n xs v h = rw add-one (take-set_snoc n xs v h)

  -- A copy of a prefix of `xs` over the front of an array.
  pub take-append_le :
      (n m : ℕ) (xs ys : List A) → n ≤ m → m ≤ length xs → take n (take m xs ++ ys) ≡ take n xs
  take-append_le zero m xs ys h k = refl
  take-append_le (suc n) zero xs ys h k = absurd (omega arith)
  take-append_le (suc n) (suc m) [] ys h k = absurd (omega arith)
  take-append_le (suc n) (suc m) (x ∷ xs) ys h k =
      ap (◌∷◌ x) (take-append_le n m xs ys (omega arith) (omega arith))

  pub take-length-append : (xs ys : List A) → take (length xs) (xs ++ ys) ≡ xs
  take-length-append [] ys = refl
  take-length-append (x ∷ xs) ys = ap (◌∷◌ x) (take-length-append xs ys)

  pub take-length : (xs : List A) → take (length xs) xs ≡ xs
  take-length [] = refl
  take-length (x ∷ xs) = ap (◌∷◌ x) (take-length xs)

-- `while (length <= capacity && text[length] != '\0') ++length`, with `rounds = capacity + 1`.
abbrev pub bounded_from : ℕ → List ℕ → ℕ
bounded_from zero text = 0
bounded_from (suc rounds) [] = 0
bounded_from (suc rounds) (c ∷ cs) = suc (bounded_from rounds cs)

pub bounded_from_lem :
    (rounds : ℕ) (text : List ℕ) → bounded_from rounds text ≡ min rounds (length text)
bounded_from_lem zero text = omega arith
bounded_from_lem (suc n) [] = omega arith
bounded_from_lem (suc n) (c ∷ cs) = omega (arith, bounded_from_lem n cs)
