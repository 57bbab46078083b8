-- ===== src/Inbound/Reading.antt =====
-- What the arguments of a command read, of src/api/CommandArgs.h, across the calls of `parse` of
-- src/core/InboundParser.h.
use cuddly_train.Base.{
  ℕ, ◌≡◌, ◌∙◌, inl, inr, refl, sym, ap, Bool, true, false, ◌&&◌, List, Option, some, none, CString,
  codes, arith, if◌then◌else◌,
}
use cuddly_train.Limits.{max_json_nesting_depth}
use cuddly_train.Counters.{Counters}
use cuddly_train.Inbound.{
  JsonLibrary, InboundMessageKind, command, ParseOutcome, CommandArgs, unbound, of_parser, Parser,
  Parsed, parse, parse_document, parse_typed, parse_command, parse_estop, parse_heartbeat,
  no_outcome, invalidate, get_string, is_finite_double, bytes_of, args_has, args_get_int,
  args_get_float, args_get_bool, args_get_string,
}
use cuddly_train.Inbound.Messages.{is_valid, Shows, ShowsCommand, parse-Received}

abbrev pub is_command : InboundMessageKind → Bool
is_command command = true
is_command _ = false

module _ {V Double Float : Type 0} (lib : JsonLibrary V Double Float) where
  -- The arguments of a command can be read as long as the parser is not invalidated.
  pub record Reads (args : CommandArgs) (object : V) (p : Parser V) (name : List ℕ) : Type 0 where
    pub has : args_has lib args (some name) p ≡ lib.contains_key object name
    pub int : args_get_int lib args (some name) p ≡ (
        if lib.is_int (lib.get object name) then some (lib.as_int (lib.get object name)) else none)
    pub float : args_get_float lib args (some name) p ≡ (
        if is_finite_double lib (lib.get object name)
        then some (lib.to_float (lib.as_double (lib.get object name)))
        else none)
    pub bool : args_get_bool lib args (some name) p ≡ (
        if lib.is_bool (lib.get object name)
        then some (lib.as_bool (lib.get object name))
        else none)
    pub text : args_get_string lib args (some name) p ≡ get_string lib (lib.get object name)

  pub record ReadsNothing (args : CommandArgs) (p : Parser V) (name : CString) : Type 0 where
    pub has : args_has lib args name p ≡ false
    pub int : args_get_int lib args name p ≡ none
    pub float : args_get_float lib args name p ≡ none
    pub bool : args_get_bool lib args name p ≡ none
    pub text : args_get_string lib args name p ≡ none

  live-Reads :
      (object : V) (p : Parser V) (name : List ℕ)
      → p.active ≡ true
      → p.args ≡ some object
      → Reads of_parser object p name
  unfolding args_has args_get_int args_get_float args_get_bool args_get_string
  live-Reads object p name a o =
      rw (a, o) (record { has = refl; int = refl; float = refl; bool = refl; text = refl })

  idle-ReadsNothing :
      (args : CommandArgs) (p : Parser V) (name : CString)
      → p.active ≡ false
      → ReadsNothing args p name
  unfolding args_has args_get_int args_get_float args_get_bool args_get_string
  idle-ReadsNothing unbound p name a = record {
    has = refl;
    int = refl;
    float = refl;
    bool = refl;
    text = refl;
  }
  idle-ReadsNothing of_parser p none a = record {
    has = refl;
    int = refl;
    float = refl;
    bool = refl;
    text = refl;
  }
  idle-ReadsNothing of_parser p (some name) a =
      rw a (record { has = refl; int = refl; float = refl; bool = refl; text = refl })

  -- Whether a line was accepted as a command.
  abbrev pub is_accepted_command : ParseOutcome Double → Bool
  is_accepted_command outcome = is_valid outcome.kind && is_command outcome.message_kind

  parse_typed-idle :
      (type : CString) (root : V) (outcome : ParseOutcome Double) (p : Parser V) (c : Counters)
      → p.active ≡ false
      → let out = parse_typed lib type root outcome p c in
        is_accepted_command out.0 ≡ false → out.1.active ≡ false
  unfolding parse_typed parse_command parse_estop parse_heartbeat
  parse_typed-idle none root outcome p c a h = a
  parse_typed-idle (some type) root outcome p c a h = ground (arith, a, h)

  parse_document-idle :
      (document : Option V) (outcome : ParseOutcome Double) (p : Parser V) (c : Counters)
      → p.active ≡ false
      → let out = parse_document lib document outcome p c in
        is_accepted_command out.0 ≡ false → out.1.active ≡ false
  unfolding parse_document
  parse_document-idle none outcome p c a h = a
  parse_document-idle (some root) outcome p c a h = ground (
    arith,
    a,
    h,
    parse_typed-idle (get_string lib (lib.get root (codes "type"))) root outcome p c a,
  )

  parse-idle :
      (line : Option (List ℕ)) (p : Parser V) (c : Counters)
      → let out = parse lib line p c in is_accepted_command out.0 ≡ false → out.1.active ≡ false
  unfolding parse invalidate
  parse-idle line p c h = ground (
    arith,
    h,
    parse_document-idle (lib.deserialize max_json_nesting_depth (bytes_of lib line))
        (no_outcome lib) (record (invalidate p) { payload = line }) c refl,
  )

  Shows-command :
      (root : V) (out : Parsed lib)
      → Shows lib root out
      → is_command out.0.message_kind ≡ true
      → ShowsCommand lib root out.0 out.1
  Shows-command root out shows h = elim shows.shown [
    | inl (_, _, s) ↦ s
    | inr rest ↦ elim rest [
      | inl (_, k, _) ↦ absurd (no_bool (sym (ap is_command k) ∙ h))
      | inr (_, k, _) ↦ absurd (no_bool (sym (ap is_command k) ∙ h))
    ]
  ]
    where
      no_bool : (false ≡ true) → ⊥
      no_bool e = cc

  -- Whatever arguments the parser has handed out before, and whatever it held: behind a parse they read
  -- nothing, by no name and as no type, unless this line was accepted as a command; then they read
  -- exactly the object `args` of the document that the library makes of this line. Once the parser is
  -- invalidated they read nothing again.
  pub parse-Reads :
      (line : Option (List ℕ)) (p : Parser V) (c : Counters) (args : CommandArgs) (name : CString)
      → let (outcome, p', _) = parse lib line p c in
        (is_accepted_command outcome ≡ false → ReadsNothing args p' name)
        × (is_accepted_command outcome ≡ true
            → (root : V) × (lib.deserialize max_json_nesting_depth (bytes_of lib line) ≡ some root)
              × ((text : List ℕ) → Reads of_parser (lib.get root (codes "args")) p' text))
        × ReadsNothing args (invalidate p') name
  unfolding invalidate
  parse-Reads line p c args name =
      let out = parse lib line p c in
      (
        λ h. idle-ReadsNothing args (out.1) name (parse-idle line p c h),
        λ h.
            let r = parse-Received lib line p c (ground (arith, h)) in
            let s = Shows-command r.root out r.message (ground (arith, h)) in
            (
              r.root,
              r.read,
              λ text. live-Reads (lib.get r.root (codes "args")) (out.1) text s.live.0 s.live.1,
            ),
        idle-ReadsNothing args (invalidate (out.1)) name refl,
      )
