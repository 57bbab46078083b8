-- ===== src/Json/Value.antt =====
-- JSON values as data, and their text: what the lines of the board are meant to be.
use cuddly_train.Base.{ℕ, Bool, List, [], ◌∷◌, ◌++◌, codes, if◌then◌else◌}
use cuddly_train.Json.Decimal.{decimal}
use cuddly_train.Json.Escape.{quote}

mutual
  pub data Value : Type 0 where
    text : List ℕ → Value
    number : ℕ → Value
    boolean : Bool → Value
    object : Members → Value

  pub data Members : Type 0 where
    nil : Members
    member : List ℕ → Value → Members → Members

unfoldable mutual
  pub render : Value → List ℕ
  render (text s) = quote s
  render (number n) = decimal n
  render (boolean b) = if b then codes "true" else codes "false"
  render (object ms) = b'{' ∷ (render_first ms ++ (b'}' ∷ []))

  -- The members of an object, the first one with no comma.
  pub render_first : Members → List ℕ
  render_first nil = []
  render_first (member name v ms) = quote name ++ (b':' ∷ (render v ++ render_rest ms))

  pub render_rest : Members → List ℕ
  render_rest nil = []
  render_rest (member name v ms) = b',' ∷ (quote name ++ (b':' ∷ (render v ++ render_rest ms)))
