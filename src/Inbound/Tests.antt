-- ===== src/Inbound/Tests.antt =====
-- The parser over a small library of documents.
use cuddly_train.Base.{
  ℕ, ◌≡◌, ◌↔◌, refl, Bool, true, false, List, [], ◌∷◌, Option, some, none, codes, if◌then◌else◌,
  str_eq,
}
use cuddly_train.Counters.{zero_counters}
use cuddly_train.Json.Decimal.{pos}
use cuddly_train.Inbound.{
  JsonLibrary, Parser, of_parser, parse, parse_document, parse_typed, parse_heartbeat, invalidate,
}
use cuddly_train.Inbound.Utf8.{sequence_at, valid_from, is_valid_utf8}
use cuddly_train.Inbound.Utf8.Reference.{Encoding}
use cuddly_train.Inbound.Utf8.Exact.{is_valid_utf8_lem}
use cuddly_train.Inbound.Outcomes.{Classified, parse_lem}
use cuddly_train.Inbound.Messages.{is_valid, Received, parse-Received}
use cuddly_train.Inbound.Reading.{Reads, ReadsNothing, is_accepted_command, parse-Reads}

-- A document is one of these values; every text is read as the object of one heartbeat.
data Document : Type 0 where
  root missing : Document
  text_of : List ℕ → Document
  number_of : ℕ → Document

abbrev field : Document → List ℕ → Document
field root name =
    if str_eq name (codes "type")
    then text_of (codes "heartbeat")
    else if str_eq name (codes "seq")
    then number_of 7
    else if str_eq name (codes "source")
    then text_of (codes "controller")
    else if str_eq name (codes "target")
    then text_of (codes "arm")
    else missing
field _ name = missing

abbrev is_there : Document → Bool
is_there missing = false
is_there _ = true

abbrev library : JsonLibrary Document ℕ ℕ
library = record {
  deserialize = λ limit bytes. some root;
  is_object =
      λ v. elim v [ root ↦ true | missing ↦ false | text_of t ↦ false | number_of n ↦ false ];
  contains_key = λ v name. is_there (field v name);
  get = field;
  keys = λ v. [];
  is_text = λ v. elim v [ root ↦ false | missing ↦ false | text_of t ↦ true | number_of n ↦ false ];
  as_text = λ v. elim v [ root ↦ none | missing ↦ none | text_of t ↦ some t | number_of n ↦ none ];
  is_seq = λ v. elim v [ root ↦ false | missing ↦ false | text_of t ↦ false | number_of n ↦ true ];
  as_seq = λ v. elim v [ root ↦ 0 | missing ↦ 0 | text_of t ↦ 0 | number_of n ↦ n ];
  is_double = λ v. false;
  as_double = λ v. 0;
  is_int = λ v. false;
  as_int = λ v. pos 0;
  is_bool = λ v. false;
  as_bool = λ v. false;
  is_finite = λ d. true;
  to_float = λ d. d;
  zero = 0;
}

abbrev idle : Parser Document
idle = record { args = none; active = false; payload = none }

abbrev line : Option (List ℕ)
line = some (codes "{\"type\":\"heartbeat\"}")

-- The euro sign, and the two bytes of an overlong slash.
euro_is_valid : is_valid_utf8 (some (0xE2 ∷ 0x82 ∷ 0xAC ∷ [])) ≡ true
unfolding is_valid_utf8
euro_is_valid = refl

overlong_is_refused : is_valid_utf8 (some (0xC0 ∷ 0xAF ∷ [])) ≡ false
unfolding is_valid_utf8
overlong_is_refused = refl

is_valid_utf8_lem_example :
    (is_valid_utf8 (some (0xE2 ∷ 0x82 ∷ 0xAC ∷ [])) ≡ true) ↔ Encoding (0xE2 ∷ 0x82 ∷ 0xAC ∷ [])
is_valid_utf8_lem_example = is_valid_utf8_lem (0xE2 ∷ 0x82 ∷ 0xAC ∷ [])

parse_lem_example : Classified library zero_counters (parse library line idle zero_counters)
parse_lem_example = parse_lem library line idle zero_counters

accepted : is_valid (parse library line idle zero_counters).0.kind ≡ true
unfolding parse parse_document parse_typed parse_heartbeat is_valid_utf8 valid_from sequence_at
    str_eq
accepted = refl

parse-Received_example : Received library line (parse library line idle zero_counters)
parse-Received_example = parse-Received library line idle zero_counters accepted

-- The parser held another document, whose arguments were handed out.
abbrev reading : Parser Document
reading = record { args = some root; active = true; payload = none }

parse-Reads_example :
    let (outcome, p', _) = parse library line reading zero_counters in
    (is_accepted_command library outcome ≡ false
      → ReadsNothing library of_parser p' (some (codes "seq")))
    × (is_accepted_command library outcome ≡ true
        → (d : Document) × (some root ≡ some d)
          × ((text : List ℕ) → Reads library of_parser (field d (codes "args")) p' text))
    × ReadsNothing library of_parser (invalidate p') (some (codes "seq"))
parse-Reads_example = parse-Reads library line reading zero_counters of_parser (some (codes "seq"))
