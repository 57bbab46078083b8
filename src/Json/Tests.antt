-- ===== src/Json/Tests.antt =====
-- The JSON writer at concrete inputs.
use cuddly_train.Base.{ℕ, ◌≡◌, List, [], ◌∷◌, ◌++◌, arith}
use cuddly_train.Json.Escape.{escape, read, plain, closed, read-quote}

-- A quote, a newline, a backslash and a control byte.
abbrev nasty : List ℕ
nasty = b'"' ∷ b'\n' ∷ b'\\' ∷ 1 ∷ b'a' ∷ []

read-quote_example : read (escape nasty ++ (b'"' ∷ [])) (plain []) ≡ closed nasty
read-quote_example = read-quote nasty (ground arith)
