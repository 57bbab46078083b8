-- ===== src/Inbound/Messages.antt =====
-- The messages that `parse` of src/core/InboundParser.h hands out.
use cuddly_train.Base.{
  ℕ, ◌≡◌, ◌∙◌, ◌⊎◌, inl, inr, refl, ap, Bool, true, false, not, ◌||◌, List, Option, some, none,
  CString, codes, arith, is_some, if◌then◌else◌, str_eq, str_eq_sound,
}
use cuddly_train.Limits.{max_json_nesting_depth}
use cuddly_train.Counters.{Counters, invalid_json, increment}
use cuddly_train.Inbound.Utf8.{is_valid_utf8}
use cuddly_train.Inbound.{
  JsonLibrary, ParseOutcomeKind, valid, command, estop, heartbeat, ParseOutcome, of_parser, Parser,
  Parsed, parse, parse_document, parse_typed, parse_command, parse_estop, parse_heartbeat,
  no_outcome, invalidate, get_string, is_finite_double, bytes_of,
}

abbrev pub is_valid : ParseOutcomeKind → Bool
is_valid valid = true
is_valid _ = false

module _ {V Double Float : Type 0} (lib : JsonLibrary V Double Float) where
  -- A field of an object that is there and holds a text.
  abbrev HasText : V → List ℕ → CString → Type 0
  HasText root name text =
      (lib.contains_key root name ≡ true)
      × (get_string lib (lib.get root name) ≡ text)
      × (is_some text ≡ true)

  -- A field of an object that is there and is a text that the library hands out.
  abbrev IsText : V → List ℕ → Type 0
  IsText root name =
      (lib.contains_key root name ≡ true)
      × (lib.is_text (lib.get root name) ≡ true)
      × (is_some (lib.as_text (lib.get root name)) ≡ true)

  -- What makes the object a command, and the outcome and the parser that show it.
  pub record ShowsCommand (root : V) (outcome : ParseOutcome Double) (p : Parser V) : Type 0 where
    pub numbered : lib.is_seq (lib.get root (codes "seq")) ≡ true
    pub seq : outcome.command.seq ≡ lib.as_seq (lib.get root (codes "seq"))
    pub timed : is_finite_double lib (lib.get root (codes "controller_ts")) ≡ true
    pub time : outcome.command.controller_ts ≡ lib.as_double (lib.get root (codes "controller_ts"))
    pub time_there : lib.contains_key root (codes "controller_ts") ≡ true
    pub sourced : IsText root (codes "source")
    pub addressed : IsText root (codes "target")
    pub named : HasText root (codes "command") outcome.command.command
    pub args_there : lib.contains_key root (codes "args") ≡ true
    pub has_args : lib.is_object (lib.get root (codes "args")) ≡ true
    pub bound : outcome.command.args ≡ of_parser
    pub live : (p.active ≡ true) × (p.args ≡ some (lib.get root (codes "args")))

  parse_command-Shows :
      (root : V) (outcome : ParseOutcome Double) (p : Parser V) (c : Counters)
      → let out = parse_command lib root outcome p c in
        is_valid out.0.kind ≡ true → ShowsCommand root out.0 out.1
  unfolding parse_command
  parse_command-Shows root outcome p c h = record {
    numbered = ground (arith, h);
    seq = ground (arith, h);
    timed = ground (arith, h);
    time = ground (arith, h);
    time_there = ground (arith, h);
    sourced = ground (arith, h);
    addressed = ground (arith, h);
    named = ground (arith, h);
    args_there = ground (arith, h);
    has_args = ground (arith, h);
    bound = ground (arith, h);
    live = ground (arith, h);
  }

  pub record ShowsEstop (root : V) (outcome : ParseOutcome Double) : Type 0 where
    pub source : HasText root (codes "source") outcome.estop.source
    pub target : HasText root (codes "target") outcome.estop.target

  pub record ShowsHeartbeat (root : V) (outcome : ParseOutcome Double) : Type 0 where
    pub numbered : lib.is_seq (lib.get root (codes "seq")) ≡ true
    pub seq : outcome.heartbeat.seq ≡ lib.as_seq (lib.get root (codes "seq"))
    pub source : HasText root (codes "source") outcome.heartbeat.source
    pub target : HasText root (codes "target") outcome.heartbeat.target

  parse_estop-Shows :
      (root : V) (outcome : ParseOutcome Double) (p : Parser V) (c : Counters)
      → let out = parse_estop lib root outcome p c in
        is_valid out.0.kind ≡ true → ShowsEstop root out.0
  unfolding parse_estop
  parse_estop-Shows root outcome p c h = record {
    source = ground (arith, h);
    target = ground (arith, h);
  }

  parse_heartbeat-Shows :
      (root : V) (outcome : ParseOutcome Double) (p : Parser V) (c : Counters)
      → let out = parse_heartbeat lib root outcome p c in
        is_valid out.0.kind ≡ true → ShowsHeartbeat root out.0
  unfolding parse_heartbeat
  parse_heartbeat-Shows root outcome p c h = record {
    numbered = ground (arith, h);
    seq = ground (arith, h);
    source = ground (arith, h);
    target = ground (arith, h);
  }

  parse_command-kind :
      (root : V) (outcome : ParseOutcome Double) (p : Parser V) (c : Counters)
      → (parse_command lib root outcome p c).0.message_kind ≡ command
  unfolding parse_command
  parse_command-kind root outcome p c = ground arith

  parse_estop-kind :
      (root : V) (outcome : ParseOutcome Double) (p : Parser V) (c : Counters)
      → (parse_estop lib root outcome p c).0.message_kind ≡ estop
  unfolding parse_estop
  parse_estop-kind root outcome p c = ground arith

  parse_heartbeat-kind :
      (root : V) (outcome : ParseOutcome Double) (p : Parser V) (c : Counters)
      → (parse_heartbeat lib root outcome p c).0.message_kind ≡ heartbeat
  unfolding parse_heartbeat
  parse_heartbeat-kind root outcome p c = ground arith

  -- The object has the type of the message that the outcome shows.
  pub record Shows (root : V) (out : Parsed lib) : Type 0 where
    pub shown :
        ((get_string lib (lib.get root (codes "type")) ≡ some (codes "command"))
          × (out.0.message_kind ≡ command)
          × ShowsCommand root out.0 out.1)
        ⊎ ((get_string lib (lib.get root (codes "type")) ≡ some (codes "estop"))
            × (out.0.message_kind ≡ estop)
            × ShowsEstop root out.0)
        ⊎ ((get_string lib (lib.get root (codes "type")) ≡ some (codes "heartbeat"))
            × (out.0.message_kind ≡ heartbeat)
            × ShowsHeartbeat root out.0)

  if-Shows :
      (root : V) (b : Bool) (x y : Parsed lib)
      → (b ≡ true → is_valid x.0.kind ≡ true → Shows root x)
      → (is_valid y.0.kind ≡ true → Shows root y)
      → is_valid (if b then x else y).0.kind ≡ true
      → Shows root (if b then x else y)
  if-Shows root true x y f g h = f refl h
  if-Shows root false x y f g h = g h

  parse_typed-Shows :
      (type : CString) (root : V) (p : Parser V) (c : Counters)
      → get_string lib (lib.get root (codes "type")) ≡ type
      → let out = parse_typed lib type root (no_outcome lib) p c in
        is_valid out.0.kind ≡ true → Shows root out
  unfolding parse_typed
  parse_typed-Shows none root p c e h = cc
  parse_typed-Shows (some type) root p c e h =
      let named : (word : List ℕ)
          → str_eq type word ≡ true
          → get_string lib (lib.get root (codes "type")) ≡ some word =
        λ word q. e ∙ ap some (str_eq_sound type word q) in
      if-Shows root (str_eq type (codes "command")) _ _
        (λ q v. record {
          shown = inl (
            named (codes "command") q,
            parse_command-kind root (no_outcome lib) p c,
            parse_command-Shows root (no_outcome lib) p c v,
          );
        })
        (if-Shows root (str_eq type (codes "estop")) _ _
          (λ q v. record {
            shown = inr (
                inl (
                  named (codes "estop") q,
                  parse_estop-kind root (no_outcome lib) p c,
                  parse_estop-Shows root (no_outcome lib) p c v,
                ));
          })
          (if-Shows root (str_eq type (codes "heartbeat")) _ _
            (λ q v. record {
              shown = inr (
                  inr (
                    named (codes "heartbeat") q,
                    parse_heartbeat-kind root (no_outcome lib) p c,
                    parse_heartbeat-Shows root (no_outcome lib) p c v,
                  ));
            })
            (λ v. cc)))
        h

  -- The line behind a message, and the object that the library makes of it.
  pub record Received (line : Option (List ℕ)) (out : Parsed lib) : Type 0 where
    pub root : V
    pub in_utf8 : is_valid_utf8 line ≡ true
    pub read : lib.deserialize max_json_nesting_depth (bytes_of lib line) ≡ some root
    pub is_object : lib.is_object root ≡ true
    pub message : Shows root out

  guard-Received :
      (line : Option (List ℕ)) (b : Bool) (x y : Parsed lib)
      → is_valid x.0.kind ≡ false
      → (b ≡ false → is_valid y.0.kind ≡ true → Received line y)
      → is_valid (if b then x else y).0.kind ≡ true
      → Received line (if b then x else y)
  guard-Received line true x y n f h = cc
  guard-Received line false x y n f h = f refl h

  parse_document-Received :
      (line : Option (List ℕ)) (document : Option V) (p : Parser V) (c : Counters)
      → is_valid_utf8 line ≡ true
      → lib.deserialize max_json_nesting_depth (bytes_of lib line) ≡ document
      → let out = parse_document lib document (no_outcome lib) p c in
        is_valid out.0.kind ≡ true → Received line out
  unfolding parse_document
  parse_document-Received line none p c u d h = cc
  parse_document-Received line (some root) p c u d h =
      guard-Received line (not (lib.is_object root)) (no_outcome lib, p, increment invalid_json c) _
        refl
        (λ o v. record {
          root = root;
          in_utf8 = u;
          read = d;
          is_object = ground (arith, o);
          message =
              parse_typed-Shows (get_string lib (lib.get root (codes "type"))) root p c refl v;
        })
        h

  -- A line that the parser accepts is in UTF-8, and the library reads it as an object that has the
  -- type of the message: a command with a 64-bit sequence number, a finite time, a name, a target and
  -- an object of arguments, which is then bound to the parser; an e-stop with source and target; or a
  -- heartbeat with a sequence number, source and target. The outcome holds exactly these values.
  pub parse-Received :
      (line : Option (List ℕ)) (p : Parser V) (c : Counters)
      → let out = parse lib line p c in is_valid out.0.kind ≡ true → Received line out
  unfolding parse
  parse-Received line p c h =
      let p' : Parser V = record (invalidate p) { payload = line } in
      guard-Received line (not (is_some line) || not (is_valid_utf8 line))
        (no_outcome lib, p', increment invalid_json c) _ refl
        (λ u v.
          parse_document-Received line (lib.deserialize max_json_nesting_depth (bytes_of lib line))
            p' c (ground (arith, u)) refl v)
        h
