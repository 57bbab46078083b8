-- ===== src/Heartbeat/Ack.antt =====
-- The text of the acknowledgement.
use mathlib.Core.List.{append_assoc, append-nil}
use cuddly_train.Base.{
  ℕ, ◌≡◌, ◌∙◌, refl, List, [], ◌∷◌, ◌++◌, some, none, codes, arith, length, length-append, leb,
  if◌then◌else◌,
}
use cuddly_train.Protocol.{BoardIdentity}
use cuddly_train.Json.Value.{Value, text, number, object, member, nil, render}
use cuddly_train.Json.{JsonWriter}
use cuddly_train.Json.Chain.{Emits, string-Emits, then-string, then-number, then-close}
use cuddly_train.Json.Line.{build_line_lem, opened, opened-Fits}
use cuddly_train.Heartbeat.{ParsedHeartbeat, ack_members, build_heartbeat_ack_line}

abbrev pub ack_value : ℕ → List ℕ → Value
ack_value seq board_id = object (
    member (codes "type") (text (codes "heartbeat")) (
      member (codes "seq") (number seq) (
        member (codes "source") (text board_id)
          (member (codes "target") (text (codes "controller")) nil))))

ack_members-Emits :
    (hb : ParsedHeartbeat) (id : List ℕ) (identity : BoardIdentity)
    → identity.board_id ≡ some id
    → (bytes : List ℕ) × (w : JsonWriter) × Emits bytes opened w (ack_members hb identity opened)
      × (b'{' ∷ bytes ≡ render (ack_value hb.seq id))
unfolding render
ack_members-Emits hb id identity e =
    let e1 = string-Emits (codes "type") (codes "heartbeat") opened refl opened-Fits in
    let e2 = then-number _ _ _ _ e1 (codes "seq") hb.seq refl in
    let e3 = then-string _ _ _ _ e2 (codes "source") id refl in
    let e4 = then-string _ _ _ _ e3 (codes "target") (codes "controller") refl in
    let e5 = then-close _ _ _ _ e4 (omega arith) in rw e (_, _, e5, simp (append_assoc, append-nil))

-- The acknowledgement is the JSON object with the type, the heartbeat's own sequence number, the
-- board as source and the controller as target, and one newline; the builder yields it exactly when
-- it fits the transmit limit of 8192 bytes.
pub build_heartbeat_ack_line_lem :
    (hb : ParsedHeartbeat) (id : List ℕ) (identity : BoardIdentity)
    → identity.board_id ≡ some id
    → let line = render (ack_value hb.seq id) ++ (b'\n' ∷ []) in
      build_heartbeat_ack_line hb identity ≡ (if leb (length line) 8192 then some line else none)
unfolding build_heartbeat_ack_line
build_heartbeat_ack_line_lem hb id identity e =
    let (bytes, w, m, r) = ack_members-Emits hb id identity e in
    build_line_lem bytes w (ack_members hb identity) m
    ∙ ground (arith, r, length-append (b'{' ∷ bytes) (b'\n' ∷ []))
