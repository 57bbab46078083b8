-- ===== src/Inbound/Outcomes.antt =====
-- What `parse` of src/core/InboundParser.h reports and counts, by the kind of its outcome.
use cuddly_train.Base.{
  ℕ, ◌≡◌, ◌⊎◌, refl, Bool, true, false, not, ◌||◌, List, Option, some, none, CString, codes, arith,
  is_some, if◌then◌else◌, str_eq,
}
use cuddly_train.Inbound.Utf8.{is_valid_utf8}
use cuddly_train.Counters.{Counters, invalid_json, increment}
use cuddly_train.Protocol.{missing_field, invalid_type}
use cuddly_train.Inbound.{
  JsonLibrary, ParseOutcomeKind, valid, structurally_invalid, ParseOutcome, Parser, Parsed, parse,
  parse_document, parse_typed, parse_command, parse_estop, parse_heartbeat, no_outcome,
}

-- The session goes on with the outcome: a message, or an error that the board answers.
abbrev pub is_usable : ParseOutcomeKind → Bool
is_usable valid = true
is_usable structurally_invalid = true
is_usable _ = false

abbrev pub is_structural : ParseOutcomeKind → Bool
is_structural structurally_invalid = true
is_structural _ = false

module _ {V Double Float : Type 0} (lib : JsonLibrary V Double Float) where
  pub record Classified (c : Counters) (out : Parsed lib) : Type 0 where
    pub counted : out.2 ≡ (if is_usable out.0.kind then c else increment invalid_json c)
    pub numbered : is_structural out.0.kind ≡ true → out.0.has_seq ≡ true
    pub suggested : is_structural out.0.kind ≡ true → out.0.has_suggested_error ≡ true
    pub error :
        is_structural out.0.kind ≡ true
        → (out.0.suggested_error ≡ missing_field) ⊎ (out.0.suggested_error ≡ invalid_type)

  parse_command-Classified :
      (root : V) (outcome : ParseOutcome Double) (p : Parser V) (c : Counters)
      → Classified c (parse_command lib root outcome p c)
  unfolding parse_command
  parse_command-Classified root outcome p c = record {
    counted = ground arith;
    numbered = ground arith;
    suggested = ground arith;
    error = ground arith;
  }

  parse_estop-Classified :
      (root : V) (outcome : ParseOutcome Double) (p : Parser V) (c : Counters)
      → Classified c (parse_estop lib root outcome p c)
  unfolding parse_estop
  parse_estop-Classified root outcome p c = record {
    counted = ground arith;
    numbered = ground arith;
    suggested = ground arith;
    error = ground arith;
  }

  parse_heartbeat-Classified :
      (root : V) (outcome : ParseOutcome Double) (p : Parser V) (c : Counters)
      → Classified c (parse_heartbeat lib root outcome p c)
  unfolding parse_heartbeat
  parse_heartbeat-Classified root outcome p c = record {
    counted = ground arith;
    numbered = ground arith;
    suggested = ground arith;
    error = ground arith;
  }

  if-Classified :
      (c : Counters) (b : Bool) (x y : Parsed lib)
      → Classified c x
      → Classified c y
      → Classified c (if b then x else y)
  if-Classified c true x y a b = a
  if-Classified c false x y a b = b

  unusable-Classified :
      (c : Counters) (outcome : ParseOutcome Double) (p : Parser V)
      → is_usable outcome.kind ≡ false
      → is_structural outcome.kind ≡ false
      → Classified c (outcome, p, increment invalid_json c)
  unusable-Classified c outcome p u s = record {
    counted = rw u refl;
    numbered = λ h. cc;
    suggested = λ h. cc;
    error = λ h. cc;
  }

  parse_typed-Classified :
      (type : CString) (root : V) (outcome : ParseOutcome Double) (p : Parser V) (c : Counters)
      → Classified c (parse_typed lib type root outcome p c)
  unfolding parse_typed
  parse_typed-Classified none root outcome p c = unusable-Classified c _ p refl refl
  parse_typed-Classified (some type) root outcome p c =
      if-Classified c (str_eq type (codes "command")) _ _
        (parse_command-Classified root outcome p c)
        (if-Classified c (str_eq type (codes "estop")) _ _ (parse_estop-Classified root outcome p c)
          (if-Classified c (str_eq type (codes "heartbeat")) _ _
            (parse_heartbeat-Classified root outcome p c) (unusable-Classified c _ p refl refl)))

  parse_document-Classified :
      (document : Option V) (p : Parser V) (c : Counters)
      → Classified c (parse_document lib document (no_outcome lib) p c)
  unfolding parse_document
  parse_document-Classified none p c = unusable-Classified c (no_outcome lib) p refl refl
  parse_document-Classified (some root) p c =
      if-Classified c (not (lib.is_object root)) _ _
        (unusable-Classified c (no_outcome lib) p refl refl)
        (parse_typed-Classified _ root (no_outcome lib) p c)

  -- Every line that the parser is given, whatever its bytes, is either usable or counted once as
  -- invalid: the counter grows exactly for a malformed line and for a type that is not supported. A
  -- message with a structural error always has its sequence number, and the code suggested for the
  -- answer is that of a missing field or of a wrong type.
  pub parse_lem :
      (line : Option (List ℕ)) (p : Parser V) (c : Counters) → Classified c (parse lib line p c)
  unfolding parse
  parse_lem line p c =
      if-Classified c (not (is_some line) || not (is_valid_utf8 line)) _ _
        (unusable-Classified c (no_outcome lib) _ refl refl) (parse_document-Classified _ _ c)
