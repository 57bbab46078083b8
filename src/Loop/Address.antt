-- ===== src/Loop/Address.antt =====
-- The address of a message, as `processLine` of src/core/ServiceLoop.h reads and tests it.
use cuddly_train.Base.{
  ℕ, ◌≤◌, ◌≡◌, ◌∙◌, sym, refl, ap, Bool, true, false, List, Option, some, none, CString, codes,
  arith, length, str_eq, str_eq_sound, str_eq_refl, bounded_from_lem,
}
use cuddly_train.Limits.{max_json_nesting_depth}
use cuddly_train.Platform.{Clock}
use cuddly_train.Protocol.{BoardIdentity}
use cuddly_train.Inbound.{
  JsonLibrary, ParseOutcome, InboundMessageKind, no_message, command, estop, heartbeat,
}
use cuddly_train.Loop.{
  SessionLike, Loop, Routes, valid_gate, valid_controller_target, extract_source_target,
  copy_bounded,
}

-- A copy of at most 48 bytes.
copy_bounded-copied :
    (source : CString)
    → (copy_bounded source 48).0 ≡ true
    → (length (copy_bounded source 48).1 ≤ 48) × (source ≡ some (copy_bounded source 48).1)
copy_bounded-copied none h = cc
copy_bounded-copied (some text) h = ground (arith, h, bounded_from_lem 49 text)

copy_bounded-short : (text : List ℕ) → length text ≤ 48 → copy_bounded (some text) 48 ≡ (true, text)
copy_bounded-short text h = ground (arith, bounded_from_lem 49 text)

-- A name that is compared with one that may be missing.
named-is :
    (o : CString) (target : List ℕ)
    → (elim o [ none ↦ false | some id ↦ str_eq target id ]) ≡ true
    → o ≡ some target
named-is none target h = cc
named-is (some id) target h = ap some (sym (str_eq_sound target id h))

module _ {S V C Double Float : Type 0} (driver : SessionLike S) (lib : JsonLibrary V Double Float)
    (deserialize_copy : ℕ → List ℕ → Option V) (identity : BoardIdentity)
    (routes : Routes (Loop S V C) Double) (clock : Option (Clock (Loop S V C))) where
  -- A message from the controller to this board, by its two texts.
  abbrev pub IsForBoard : CString → CString → Type 0
  IsForBoard source target =
      (id : List ℕ) × (identity.board_id ≡ some id)
      × (source ≡ some (codes "controller"))
      × (target ≡ some id)

  -- The document of the line is an object with two such texts, the board's name of at most 48 bytes.
  pub record IsDocumentForBoard (line : List ℕ) : Type 0 where
    pub root : V
    pub id : List ℕ
    pub read : deserialize_copy max_json_nesting_depth line ≡ some root
    pub is_object : lib.is_object root ≡ true
    pub source_text : lib.is_text (lib.get root (codes "source")) ≡ true
    pub target_text : lib.is_text (lib.get root (codes "target")) ≡ true
    pub source : lib.as_text (lib.get root (codes "source")) ≡ some (codes "controller")
    pub target : lib.as_text (lib.get root (codes "target")) ≡ some id
    pub board : identity.board_id ≡ some id
    pub fits : length id ≤ 48

  -- Whether a valid message is from the controller to this board: a command by the document of its
  -- line, an e-stop and a heartbeat by what was parsed.
  abbrev pub IsAddressed : InboundMessageKind → ParseOutcome Double → List ℕ → Type 0
  IsAddressed command outcome line = IsDocumentForBoard line
  IsAddressed estop outcome line = IsForBoard outcome.estop.source outcome.estop.target
  IsAddressed heartbeat outcome line = IsForBoard outcome.heartbeat.source outcome.heartbeat.target
  IsAddressed no_message outcome line = Unit {0}

  target-IsForBoard :
      (source target : CString)
      → valid_controller_target driver lib deserialize_copy identity routes clock source target
        ≡ true
      → IsForBoard source target
  target-IsForBoard none target h = cc
  target-IsForBoard (some source) none h = cc
  target-IsForBoard (some source) (some target) h = (
    target,
    named-is identity.board_id target (ground (arith, h)),
    ap some (str_eq_sound source (codes "controller") (ground (arith, h))),
    refl,
  )

  IsForBoard-target :
      (source target : CString)
      → IsForBoard source target
      → valid_controller_target driver lib deserialize_copy identity routes clock source target
        ≡ true
  IsForBoard-target source target (id, b, s, t) =
      rw (s, t, b) (rw (str_eq_refl (codes "controller"), str_eq_refl id) refl)

  -- What a gate that is valid was read from.
  gate-read :
      (line : List ℕ) (root : V)
      → deserialize_copy max_json_nesting_depth line ≡ some root
      → valid_gate driver lib deserialize_copy identity routes clock
          (extract_source_target driver lib deserialize_copy identity routes clock line)
        ≡ true
      → let source = copy_bounded (lib.as_text (lib.get root (codes "source"))) 48 in
        let target = copy_bounded (lib.as_text (lib.get root (codes "target"))) 48 in
        (lib.is_object root ≡ true)
        × (lib.is_text (lib.get root (codes "source")) ≡ true)
        × (lib.is_text (lib.get root (codes "target")) ≡ true)
        × (source.0 ≡ true)
        × (target.0 ≡ true)
        × (str_eq source.1 (codes "controller") ≡ true)
        × ((elim identity.board_id [ none ↦ false | some id ↦ str_eq target.1 id ]) ≡ true)
  unfolding extract_source_target
  gate-read line root e h = ground (arith, h, e)

  gate-IsDocumentForBoard :
      (line : List ℕ) (document : Option V)
      → deserialize_copy max_json_nesting_depth line ≡ document
      → valid_gate driver lib deserialize_copy identity routes clock
          (extract_source_target driver lib deserialize_copy identity routes clock line)
        ≡ true
      → IsDocumentForBoard line
  unfolding extract_source_target
  gate-IsDocumentForBoard line none e h = absurd (ground (arith, e, h))
  gate-IsDocumentForBoard line (some root) e h =
      let (o, s, t, a, b, f, g) = gate-read line root e h in
      let source = copy_bounded (lib.as_text (lib.get root (codes "source"))) 48 in
      let target = copy_bounded (lib.as_text (lib.get root (codes "target"))) 48 in
      record {
        root = root;
        id = target.1;
        read = e;
        is_object = o;
        source_text = s;
        target_text = t;
        source =
            (copy_bounded-copied (lib.as_text (lib.get root (codes "source"))) a).1
            ∙ ap some (str_eq_sound source.1 (codes "controller") f);
        target = (copy_bounded-copied (lib.as_text (lib.get root (codes "target"))) b).1;
        board = named-is identity.board_id target.1 g;
        fits = (copy_bounded-copied (lib.as_text (lib.get root (codes "target"))) b).0;
      }

  IsDocumentForBoard-gate :
      (line : List ℕ)
      → IsDocumentForBoard line
      → valid_gate driver lib deserialize_copy identity routes clock
          (extract_source_target driver lib deserialize_copy identity routes clock line)
        ≡ true
  unfolding extract_source_target
  IsDocumentForBoard-gate line d =
      rw (d.read, extract_source_target)
        (rw (d.is_object, d.source_text, d.target_text, d.source, d.target, d.board)
          (ground (
            arith,
            bounded_from_lem 49 d.id,
            d.fits,
            str_eq_refl (codes "controller"),
            str_eq_refl d.id,
          )))

  -- The code's test of the address, by the kind of the message.
  abbrev pub passes : InboundMessageKind → ParseOutcome Double → List ℕ → Bool
  passes command outcome line =
      valid_gate driver lib deserialize_copy identity routes clock
        (extract_source_target driver lib deserialize_copy identity routes clock line)
  passes estop outcome line =
      valid_controller_target driver lib deserialize_copy identity routes clock outcome.estop.source
        outcome.estop.target
  passes heartbeat outcome line =
      valid_controller_target driver lib deserialize_copy identity routes clock
        outcome.heartbeat.source outcome.heartbeat.target
  passes no_message outcome line = true

  pub passes-IsAddressed :
      (kind : InboundMessageKind) (outcome : ParseOutcome Double) (line : List ℕ)
      → passes kind outcome line ≡ true
      → IsAddressed kind outcome line
  passes-IsAddressed command outcome line h =
      gate-IsDocumentForBoard line (deserialize_copy max_json_nesting_depth line) refl h
  passes-IsAddressed estop outcome line h =
      target-IsForBoard outcome.estop.source outcome.estop.target h
  passes-IsAddressed heartbeat outcome line h =
      target-IsForBoard outcome.heartbeat.source outcome.heartbeat.target h
  passes-IsAddressed no_message outcome line h = tt

  pub IsAddressed-passes :
      (kind : InboundMessageKind) (outcome : ParseOutcome Double) (line : List ℕ)
      → IsAddressed kind outcome line
      → passes kind outcome line ≡ true
  IsAddressed-passes command outcome line h = IsDocumentForBoard-gate line h
  IsAddressed-passes estop outcome line h =
      IsForBoard-target outcome.estop.source outcome.estop.target h
  IsAddressed-passes heartbeat outcome line h =
      IsForBoard-target outcome.heartbeat.source outcome.heartbeat.target h
  IsAddressed-passes no_message outcome line h = refl
