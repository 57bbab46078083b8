-- ===== src/Estop/Text.antt =====
-- The text of the two e-stop events.
use mathlib.Core.List.{append_assoc, append-nil}
use cuddly_train.Base.{
  ℕ, ◌≤◌, ◌≡◌, ◌∙◌, refl, List, [], ◌∷◌, ◌++◌, some, codes, arith, length, length-append,
}
use cuddly_train.Protocol.{BoardIdentity}
use cuddly_train.Json.Escape.{length-escape}
use cuddly_train.Json.Decimal.{length-decimal}
use cuddly_train.Json.Value.{Value, text, number, object, member, nil, render}
use cuddly_train.Json.{
  JsonWriter, Step, ◌&&>◌, add_string, add_uint64, begin_object_field, end_object,
}
use cuddly_train.Json.Chain.{Emits, string-Emits, then-string, then-number, then-open, then-close}
use cuddly_train.Json.Line.{build_line, build_line_lem, opened, opened-Fits}
use cuddly_train.Estop.{EstopHandler, build_estop_ack_line, build_estop_triggered_line}

-- An event with one detail.
abbrev pub event_value : List ℕ → ℕ → List ℕ → List ℕ → List ℕ → Value
event_value name timestamp board_id key detail = object (
    member (codes "type") (text (codes "event")) (
      member (codes "timestamp") (number timestamp) (
        member (codes "source") (text board_id) (
          member (codes "target") (text (codes "controller")) (
            member (codes "event") (text name)
              (member (codes "details") (object (member key (text detail) nil)) nil))))))

-- The calls of both builders.
abbrev event_members : List ℕ → ℕ → List ℕ → List ℕ → List ℕ → Step
event_members name timestamp board_id key detail w =
    add_string (some (codes "type")) (some (codes "event")) w
    &&> add_uint64 (some (codes "timestamp")) timestamp
    &&> add_string (some (codes "source")) (some board_id)
    &&> add_string (some (codes "target")) (some (codes "controller"))
    &&> add_string (some (codes "event")) (some name)
    &&> begin_object_field (some (codes "details"))
    &&> add_string (some key) (some detail)
    &&> end_object
    &&> end_object

event_members-Emits :
    (name : List ℕ) (timestamp : ℕ) (id key detail : List ℕ)
    → (bytes : List ℕ) × (w : JsonWriter) × Emits bytes opened w
        (event_members name timestamp id key detail opened)
      × (b'{' ∷ bytes ≡ render (event_value name timestamp id key detail))
unfolding render
event_members-Emits name timestamp id key detail =
    let e1 = string-Emits (codes "type") (codes "event") opened refl opened-Fits in
    let e2 = then-number _ _ _ _ e1 (codes "timestamp") timestamp refl in
    let e3 = then-string _ _ _ _ e2 (codes "source") id refl in
    let e4 = then-string _ _ _ _ e3 (codes "target") (codes "controller") refl in
    let e5 = then-string _ _ _ _ e4 (codes "event") name refl in
    let e6 = then-open _ _ _ _ e5 (codes "details") refl (omega arith) in
    let e7 = then-string _ _ _ _ e6 key detail refl in
    let e8 = then-close _ _ _ _ e7 (omega arith) in
    let e9 = then-close _ _ _ _ e8 (omega arith) in (_, _, e9, simp (append_assoc, append-nil))

pub event_value-length :
    (name : List ℕ) (timestamp : ℕ) (id key detail : List ℕ)
    → length name ≤ 15
    → length id ≤ 48
    → length key ≤ 6
    → length detail ≤ 160
    → length (render (event_value name timestamp id key detail)) ≤ 8191
unfolding render
event_value-length name timestamp id key detail hn hi hk hd =
    simp length-append (omega (arith, length-escape, length-decimal))

event_line :
    (name : List ℕ) (timestamp : ℕ) (id key detail : List ℕ)
    → length name ≤ 15
    → length id ≤ 48
    → length key ≤ 6
    → length detail ≤ 160
    → build_line 8192 (event_members name timestamp id key detail)
      ≡ some (render (event_value name timestamp id key detail) ++ (b'\n' ∷ []))
event_line name timestamp id key detail hn hi hk hd =
    let (bytes, w, m, r) = event_members-Emits name timestamp id key detail in
    build_line_lem bytes w (event_members name timestamp id key detail) m
    ∙ ground (arith, r, event_value-length name timestamp id key detail)

-- For any identity and reason that the registry and the handler accept, the line of the board's
-- e-stop event is built: the JSON object that names the event and gives the reason, escaped, and the
-- time at which it was requested, with one newline.
pub build_estop_triggered_line_lem :
    (h : EstopHandler) (id : List ℕ) (identity : BoardIdentity)
    → identity.board_id ≡ some id
    → length id ≤ 48
    → length h.reason ≤ 160
    → build_estop_triggered_line h identity
      ≡ some (
          render (event_value (codes "estop_triggered") h.timestamp_ms id (codes "reason") h.reason)
          ++ (b'\n' ∷ []))
unfolding build_estop_triggered_line
build_estop_triggered_line_lem h id identity e hi hr = rw e (
    event_line (codes "estop_triggered") h.timestamp_ms id (codes "reason") h.reason (omega arith)
      hi (omega arith) hr)

-- The acknowledgement of the controller's e-stop is always built, and says that the board is safe.
pub build_estop_ack_line_lem :
    (now : ℕ) (id : List ℕ) (identity : BoardIdentity)
    → identity.board_id ≡ some id
    → length id ≤ 48
    → build_estop_ack_line now identity
      ≡ some (
          render (event_value (codes "estop_ack") now id (codes "state") (codes "safe"))
          ++ (b'\n' ∷ []))
unfolding build_estop_ack_line
build_estop_ack_line_lem now id identity e hi = rw e (
    event_line (codes "estop_ack") now id (codes "state") (codes "safe") (omega arith) hi
      (omega arith) (omega arith))
