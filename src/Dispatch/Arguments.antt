-- ===== src/Dispatch/Arguments.antt =====
-- `validateArgs` of src/core/CommandDispatcher.h, and the arguments that it accepts.
use cuddly_train.Base.{
  ◌≡◌, ◌↔◌, ◌∙◌, sym, refl, Bool, true, false, List, [], ◌∷◌, Option, some, none, CString, codes,
  arith, if◌then◌else◌,
}
use cuddly_train.Protocol.{BoardErrorCode, invalid_argument}
use cuddly_train.Registry.{StoredField}
use cuddly_train.Inbound.{JsonLibrary, Parser, CommandArgs, of_parser, args_has}
use cuddly_train.Dispatch.{
  argument_type_matches, declares_argument, has_undeclared, has_extra_argument, check_declared,
  validate_args,
}

module _ {V Double Float : Type 0} (lib : JsonLibrary V Double Float) where
  -- Every declared argument is there with its type.
  abbrev pub AreMatched : List StoredField → CommandArgs → Parser V → Type 0
  AreMatched [] args p = Unit {0}
  AreMatched (spec ∷ specs) args p =
      (args_has lib args (some spec.name) p ≡ true)
      × (argument_type_matches lib args spec p ≡ true)
      × AreMatched specs args p

  abbrev pub AreDeclared : List StoredField → List CString → Type 0
  AreDeclared specs [] = Unit {0}
  AreDeclared specs (name ∷ names) =
      (declares_argument lib specs name ≡ true) × AreDeclared specs names

  check_declared-AreMatched :
      (specs : List StoredField) (args : CommandArgs) (p : Parser V)
      → check_declared lib specs args p ≡ none
      → AreMatched specs args p
  unfolding check_declared
  check_declared-AreMatched [] args p h = tt
  check_declared-AreMatched (spec ∷ specs) args p h = (
    ground (arith, h),
    ground (arith, h),
    check_declared-AreMatched specs args p (ground (arith, h)),
  )

  AreMatched-check_declared :
      (specs : List StoredField) (args : CommandArgs) (p : Parser V)
      → AreMatched specs args p
      → check_declared lib specs args p ≡ none
  unfolding check_declared
  AreMatched-check_declared [] args p h = refl
  AreMatched-check_declared (spec ∷ specs) args p h =
      ground (arith, h.0, h.1, AreMatched-check_declared specs args p h.2)

  has_undeclared-AreDeclared :
      (specs : List StoredField) (names : List CString)
      → has_undeclared lib specs names ≡ false
      → AreDeclared specs names
  unfolding has_undeclared
  has_undeclared-AreDeclared specs [] h = tt
  has_undeclared-AreDeclared specs (name ∷ names) h =
      (ground (arith, h), has_undeclared-AreDeclared specs names (ground (arith, h)))

  AreDeclared-has_undeclared :
      (specs : List StoredField) (names : List CString)
      → AreDeclared specs names
      → has_undeclared lib specs names ≡ false
  unfolding has_undeclared
  AreDeclared-has_undeclared specs [] h = refl
  AreDeclared-has_undeclared specs (name ∷ names) h =
      ground (arith, h.0, AreDeclared-has_undeclared specs names h.1)

  has_extra-live :
      (specs : List StoredField) (object : V) (p : Parser V)
      → p.active ≡ true
      → p.args ≡ some object
      → has_extra_argument lib specs of_parser p ≡ has_undeclared lib specs (lib.keys object)
  unfolding has_extra_argument
  has_extra-live specs object p a o = rw (a, o) refl

  -- The end of the check, by its two parts.
  abbrev checked : Option (BoardErrorCode × CString) → Bool → Option (BoardErrorCode × CString)
  checked error extra = elim error [
    | some e ↦ some e
    | none ↦
        if extra then some (invalid_argument, some (codes "argument is not declared")) else none
  ]

  passed :
      (error : Option (BoardErrorCode × CString)) (extra : Bool)
      → checked error extra ≡ none
      → (error ≡ none) × (extra ≡ false)
  passed (some e) extra h = absurd (ground (arith, h))
  passed none true h = absurd (ground (arith, h))
  passed none false h = (refl, refl)

  passes :
      (error : Option (BoardErrorCode × CString)) (extra : Bool)
      → error ≡ none
      → extra ≡ false
      → checked error extra ≡ none
  passes error extra h k = rw (h, k) refl

  -- For arguments bound to an active parser, the check passes exactly if every declared argument
  -- is there with a value of its declared type and every key of the object is declared.
  pub validate_args_lem :
      (specs : List StoredField) (object : V) (p : Parser V)
      → p.active ≡ true
      → p.args ≡ some object
      → (validate_args lib specs of_parser p ≡ none)
        ↔ (AreMatched specs of_parser p × AreDeclared specs (lib.keys object))
  unfolding validate_args
  validate_args_lem specs object p a o =
      let error = check_declared lib specs of_parser p in
      let extra = has_extra_argument lib specs of_parser p in
      (
        λ h.
            let parts = passed error extra h in
            (
              check_declared-AreMatched specs of_parser p parts.0,
              has_undeclared-AreDeclared specs (lib.keys object)
                  (sym (has_extra-live specs object p a o) ∙ parts.1),
            ),
        λ h. passes error extra (AreMatched-check_declared specs of_parser p h.0) (
            has_extra-live specs object p a o
            ∙ AreDeclared-has_undeclared specs (lib.keys object) h.1),
      )
