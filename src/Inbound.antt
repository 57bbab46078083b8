-- ===== src/Inbound.antt =====
-- src/core/InboundParser.h, with the arguments of src/api/CommandArgs.h: a received line is checked,
-- handed to the JSON library, and read as one of three messages. The JSON library and the numbers of
-- type `double` and `float` are parameters; a value of the document that is missing is whatever the
-- library's `root[key]` returns for it.
pub mod Utf8
pub mod Outcomes
pub mod Messages
pub mod Reading
mod Tests
use cuddly_train.Base.{
  ℕ, Bool, true, false, not, ◌&&◌, ◌||◌, List, [], ◌∷◌, Option, some, none, CString, codes, is_some,
  if◌then◌else◌, str_eq,
}
use cuddly_train.Limits.{max_json_nesting_depth}
use cuddly_train.Counters.{Counters, Field, invalid_json, increment}
use cuddly_train.Protocol.{
  MessageType, message_type_text, BoardErrorCode, missing_field, invalid_type, internal_error,
}
use cuddly_train.Heartbeat.{ParsedHeartbeat}
use cuddly_train.Json.Decimal.{ℤ}
use cuddly_train.Inbound.Utf8.{is_valid_utf8}

-- What the parser calls of ArduinoJson: `deserialize` is `deserializeJson` with its limit of nesting,
-- `none` where it reports an error; `is_…` and `as_…` are `is<…>()` and `as<…>()`, and
-- `keys` the keys of an object's pairs in their order.
pub record JsonLibrary (V Double Float : Type 0) : Type 0 where
  pub deserialize : ℕ → List ℕ → Option V
  pub is_object : V → Bool
  pub contains_key : V → List ℕ → Bool
  pub get : V → List ℕ → V
  pub keys : V → List CString
  pub is_text : V → Bool
  pub as_text : V → CString
  pub is_seq : V → Bool
  pub as_seq : V → ℕ
  pub is_double : V → Bool
  pub as_double : V → Double
  pub is_int : V → Bool
  pub as_int : V → ℤ
  pub is_bool : V → Bool
  pub as_bool : V → Bool
  pub is_finite : Double → Bool
  pub to_float : Double → Float
  pub zero : Double

pub data ParseOutcomeKind : Type 0 where
  valid malformed structurally_invalid unsupported_type : ParseOutcomeKind

pub data InboundMessageKind : Type 0 where
  no_message command estop heartbeat : InboundMessageKind

-- The default, whose functions are null, and the one with the parser's functions and backing.
pub data CommandArgs : Type 0 where
  unbound of_parser : CommandArgs

pub record ParsedCommand (Double : Type 0) : Type 0 where
  pub seq : ℕ
  pub controller_ts : Double
  pub command : CString
  pub args : CommandArgs

pub record ParsedEstop : Type 0 where
  pub source : CString
  pub target : CString

pub record ParseOutcome (Double : Type 0) : Type 0 where
  pub kind : ParseOutcomeKind
  pub message_kind : InboundMessageKind
  pub command : ParsedCommand Double
  pub estop : ParsedEstop
  pub heartbeat : ParsedHeartbeat
  pub has_seq : Bool
  pub seq : ℕ
  pub has_controller_ts : Bool
  pub controller_ts : Double
  pub has_suggested_error : Bool
  pub suggested_error : BoardErrorCode

-- The parser beside its counters: `args_backing_`, whose `args` are `none` when they are null, and
-- the payload.
pub record Parser (V : Type 0) : Type 0 where
  pub args : Option V
  pub active : Bool
  pub payload : Option (List ℕ)

unfoldable pub invalidate : {V : Type 0} → Parser V → Parser V
invalidate p = record { args = none; active = false; payload = none }

module _ {V Double Float : Type 0} (lib : JsonLibrary V Double Float) where
  abbrev pub no_outcome : ParseOutcome Double
  no_outcome = record {
    kind = malformed;
    message_kind = no_message;
    command = record { seq = 0; controller_ts = lib.zero; command = none; args = unbound };
    estop = record { source = none; target = none };
    heartbeat = record { seq = 0; source = none; target = none };
    has_seq = false;
    seq = 0;
    has_controller_ts = false;
    controller_ts = lib.zero;
    has_suggested_error = false;
    suggested_error = internal_error;
  }

  -- The text that `getString` hands out; `none` where it returns `false`.
  abbrev pub get_string : V → CString
  get_string value = if lib.is_text value then lib.as_text value else none

  -- `getFiniteDouble`, whose value is `as_double`.
  abbrev pub is_finite_double : V → Bool
  is_finite_double value = lib.is_double value && lib.is_finite (lib.as_double value)

  abbrev pub Parsed : Type 0
  Parsed = ParseOutcome Double × Parser V × Counters

  abbrev pub mark_invalid_without_response : ParseOutcome Double → Parser V → Counters → Parsed
  mark_invalid_without_response outcome p c =
      (record outcome { kind = malformed }, p, increment invalid_json c)

  abbrev pub structural_error : ParseOutcome Double → BoardErrorCode → Parser V → Counters → Parsed
  structural_error outcome code p c = (
    record outcome {
      kind = structurally_invalid;
      has_suggested_error = true;
      suggested_error = code;
    },
    p,
    c,
  )

  unfoldable pub parse_command : V → ParseOutcome Double → Parser V → Counters → Parsed
  unfolding increment
  parse_command root outcome p c =
      let seq = lib.as_seq (lib.get root (codes "seq")) in
      let controller_ts = lib.as_double (lib.get root (codes "controller_ts")) in
      let args = lib.get root (codes "args") in
      let o₁ = record outcome { message_kind = command } in
      let o₂ = record o₁ { has_seq = true; seq = seq } in
      let o₃ = record o₂ { has_controller_ts = true; controller_ts = controller_ts } in
      if not (lib.is_seq (lib.get root (codes "seq")))
      then mark_invalid_without_response o₁ p c
      else if not (lib.contains_key root (codes "controller_ts"))
      then structural_error o₂ missing_field p c
      else if not (is_finite_double (lib.get root (codes "controller_ts")))
      then structural_error o₂ invalid_type p c
      else if not (lib.contains_key root (codes "source"))
          || not (lib.contains_key root (codes "target"))
          || not (lib.contains_key root (codes "command"))
          || not (lib.contains_key root (codes "args"))
      then structural_error o₃ missing_field p c
      else if not (is_some (get_string (lib.get root (codes "source"))))
          || not (is_some (get_string (lib.get root (codes "target"))))
          || not (is_some (get_string (lib.get root (codes "command"))))
          || not (lib.is_object args)
      then structural_error o₃ invalid_type p c
      else (
        record o₃ {
          kind = valid;
          command = record {
            seq = seq;
            controller_ts = controller_ts;
            command = get_string (lib.get root (codes "command"));
            args = of_parser;
          };
        },
        record p { args = some args; active = true },
        c,
      )

  unfoldable pub parse_estop : V → ParseOutcome Double → Parser V → Counters → Parsed
  unfolding increment
  parse_estop root outcome p c =
      let source = get_string (lib.get root (codes "source")) in
      let target = get_string (lib.get root (codes "target")) in
      let o₁ = record outcome { message_kind = estop } in
      if not (lib.contains_key root (codes "source"))
        || not (lib.contains_key root (codes "target"))
      then mark_invalid_without_response o₁ p c
      else if not (is_some source) || not (is_some target)
      then mark_invalid_without_response o₁ p c
      else (record o₁ { kind = valid; estop = record { source = source; target = target } }, p, c)

  unfoldable pub parse_heartbeat : V → ParseOutcome Double → Parser V → Counters → Parsed
  unfolding increment
  parse_heartbeat root outcome p c =
      let seq = lib.as_seq (lib.get root (codes "seq")) in
      let source = get_string (lib.get root (codes "source")) in
      let target = get_string (lib.get root (codes "target")) in
      let o₁ = record outcome { message_kind = heartbeat } in
      let o₂ = record o₁ { has_seq = true; seq = seq } in
      if not (lib.is_seq (lib.get root (codes "seq")))
      then mark_invalid_without_response o₁ p c
      else if not (lib.contains_key root (codes "source"))
          || not (lib.contains_key root (codes "target"))
      then structural_error o₂ missing_field p c
      else if not (is_some source) || not (is_some target)
      then structural_error o₂ invalid_type p c
      else (
        record o₂ {
          kind = valid;
          heartbeat = record { seq = seq; source = source; target = target };
        },
        p,
        c,
      )

  -- `parse` behind the reading of the type, with `none` where there is none, and behind the document.
  unfoldable pub parse_typed : CString → V → ParseOutcome Double → Parser V → Counters → Parsed
  unfolding parse_command parse_estop parse_heartbeat
  parse_typed none root outcome p c = mark_invalid_without_response outcome p c
  parse_typed (some type) root outcome p c =
      if str_eq type (message_type_text MessageType.command)
      then parse_command root outcome p c
      else if str_eq type (message_type_text MessageType.estop)
      then parse_estop root outcome p c
      else if str_eq type (message_type_text MessageType.heartbeat)
      then parse_heartbeat root outcome p c
      else (record outcome { kind = unsupported_type }, p, increment invalid_json c)

  unfoldable pub parse_document : Option V → ParseOutcome Double → Parser V → Counters → Parsed
  unfolding parse_typed
  parse_document none outcome p c = (outcome, p, increment invalid_json c)
  parse_document (some root) outcome p c =
      if not (lib.is_object root)
      then (outcome, p, increment invalid_json c)
      else parse_typed (get_string (lib.get root (codes "type"))) root outcome p c

  abbrev pub bytes_of : Option (List ℕ) → List ℕ
  bytes_of none = []
  bytes_of (some bytes) = bytes

  unfoldable pub parse : Option (List ℕ) → Parser V → Counters → Parsed
  unfolding parse_document invalidate
  parse line p c =
      let p' = record (invalidate p) { payload = line } in
      if not (is_some line) || not (is_valid_utf8 line)
      then (no_outcome, p', increment invalid_json c)
      else parse_document (lib.deserialize max_json_nesting_depth (bytes_of line)) no_outcome p' c

  -- The functions of the arguments, through `CommandArgs`: the value, or `none` for `false`.
  abbrev pub backing_live : Parser V → Bool
  backing_live p = p.active && is_some p.args

  abbrev with_value : {A : Type 0} → CommandArgs → CString → Parser V → (V → Option A) → Option A
  with_value unbound name p f = none
  with_value of_parser none p f = none
  with_value of_parser (some name) p f =
      if not (backing_live p)
      then none
      else elim p.args [ none ↦ none | some args ↦ f (lib.get args name) ]

  unfoldable pub args_has : CommandArgs → CString → Parser V → Bool
  args_has unbound name p = false
  args_has of_parser none p = false
  args_has of_parser (some name) p =
      backing_live p && elim p.args [ none ↦ false | some args ↦ lib.contains_key args name ]

  unfoldable pub args_get_int : CommandArgs → CString → Parser V → Option ℤ
  args_get_int args name p =
      with_value args name p (λ value. if lib.is_int value then some (lib.as_int value) else none)

  unfoldable pub args_get_float : CommandArgs → CString → Parser V → Option Float
  args_get_float args name p =
      with_value args name p (λ value.
        if is_finite_double value then some (lib.to_float (lib.as_double value)) else none)

  unfoldable pub args_get_bool : CommandArgs → CString → Parser V → Option Bool
  args_get_bool args name p =
      with_value args name p (λ value. if lib.is_bool value then some (lib.as_bool value) else none)

  unfoldable pub args_get_string : CommandArgs → CString → Parser V → CString
  args_get_string args name p = with_value args name p get_string
