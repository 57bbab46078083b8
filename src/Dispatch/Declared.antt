-- ===== src/Dispatch/Declared.antt =====
-- What `validateArgs` of src/core/CommandDispatcher.h accepts, told by the values of the object.
use cuddly_train.Base.{
  ◌≡◌, ◌↔◌, ◌∙◌, ◌⊎◌, inl, inr, sym, refl, true, false, List, [], ◌∷◌, some, none, CString, ℕ,
  arith, is_some, str_eq, str_eq_sound, str_eq_refl, Bool-cases,
}
use cuddly_train.Registry.{
  ValueType, int, float, bool, string, other, StoredField, field_name_exists,
}
use cuddly_train.Inbound.{
  JsonLibrary, Parser, of_parser, args_has, args_get_int, args_get_float, args_get_bool,
  args_get_string,
}
use cuddly_train.Dispatch.{argument_type_matches, validate_args}
use cuddly_train.Dispatch.Arguments.{AreMatched, AreDeclared, validate_args_lem}

-- Whether a list of fields has one of a name.
abbrev pub Declares : List ℕ → List StoredField → Type 0
Declares name [] = ⊥
Declares name (spec ∷ specs) = (spec.name ≡ name) ⊎ Declares name specs

module _ {V Double Float : Type 0} (lib : JsonLibrary V Double Float) where
  -- Whether a value of the document is of a type; a float is a finite number.
  abbrev pub IsOf : ValueType → V → Type 0
  IsOf int v = lib.is_int v ≡ true
  IsOf float v = (lib.is_double v ≡ true) × (lib.is_finite (lib.as_double v) ≡ true)
  IsOf bool v = lib.is_bool v ≡ true
  IsOf string v = (lib.is_text v ≡ true) × (is_some (lib.as_text v) ≡ true)
  IsOf other v = ⊥

  -- The object has a member for every declared argument, with a value of its type.
  abbrev pub HasAll : List StoredField → V → Type 0
  HasAll [] object = Unit {0}
  HasAll (spec ∷ specs) object =
      (lib.contains_key object spec.name ≡ true)
      × IsOf spec.type (lib.get object spec.name)
      × HasAll specs object

  -- Every key is the name of a declared argument.
  abbrev pub AllDeclared : List StoredField → List CString → Type 0
  AllDeclared specs [] = Unit {0}
  AllDeclared specs (key ∷ keys) =
      ((name : List ℕ) × (key ≡ some name) × Declares name specs) × AllDeclared specs keys

  module _ (object : V) (p : Parser V) (a : p.active ≡ true) (o : p.args ≡ some object) where
    has-live : (name : List ℕ) → args_has lib of_parser (some name) p ≡ lib.contains_key object name
    unfolding args_has
    has-live name = rw (a, o) refl

    matches-IsOf :
        (type : ValueType) (name : List ℕ)
        → argument_type_matches lib of_parser (record { name = name; type = type }) p ≡ true
        → IsOf type (lib.get object name)
    unfolding argument_type_matches args_get_int args_get_float args_get_bool args_get_string
    matches-IsOf int name h = ground (arith, h, a, o)
    matches-IsOf float name h = ground (arith, h, a, o)
    matches-IsOf bool name h = ground (arith, h, a, o)
    matches-IsOf string name h = ground (arith, h, a, o)
    matches-IsOf other name h = cc

    IsOf-matches :
        (type : ValueType) (name : List ℕ)
        → IsOf type (lib.get object name)
        → argument_type_matches lib of_parser (record { name = name; type = type }) p ≡ true
    unfolding argument_type_matches args_get_int args_get_float args_get_bool args_get_string
    IsOf-matches int name h = ground (arith, h, a, o)
    IsOf-matches float name h = ground (arith, h, a, o)
    IsOf-matches bool name h = ground (arith, h, a, o)
    IsOf-matches string name h = ground (arith, h, a, o)
    IsOf-matches other name h = absurd h

    AreMatched-HasAll :
        (specs : List StoredField) → AreMatched lib specs of_parser p → HasAll specs object
    AreMatched-HasAll [] h = tt
    AreMatched-HasAll (spec ∷ specs) (h, m, rest) = (
      sym (has-live spec.name) ∙ h,
      matches-IsOf spec.type spec.name m,
      AreMatched-HasAll specs rest,
    )

    HasAll-AreMatched :
        (specs : List StoredField) → HasAll specs object → AreMatched lib specs of_parser p
    HasAll-AreMatched [] h = tt
    HasAll-AreMatched (spec ∷ specs) (h, m, rest) =
        (has-live spec.name ∙ h, IsOf-matches spec.type spec.name m, HasAll-AreMatched specs rest)

  exists-Declares :
      (specs : List StoredField) (name : List ℕ)
      → field_name_exists specs name ≡ true
      → Declares name specs
  unfolding field_name_exists
  exists-Declares [] name h = absurd (no_bool h)
    where
      no_bool : (false ≡ true) → ⊥
      no_bool e = cc
  exists-Declares (spec ∷ specs) name h = elim (Bool-cases (str_eq spec.name name)) [
    | inl e ↦ inl (str_eq_sound spec.name name e)
    | inr n ↦ inr (exists-Declares specs name (ground (arith, h, n)))
  ]

  Declares-exists :
      (specs : List StoredField) (name : List ℕ)
      → Declares name specs
      → field_name_exists specs name ≡ true
  unfolding field_name_exists
  Declares-exists [] name h = absurd h
  Declares-exists (spec ∷ specs) name (inl e) = rw (← e) (rw (str_eq_refl spec.name) refl)
  Declares-exists (spec ∷ specs) name (inr d) = ground (arith, Declares-exists specs name d)

  declared-all :
      (specs : List StoredField) (keys : List CString)
      → AreDeclared lib specs keys
      → AllDeclared specs keys
  declared-all specs [] h = tt
  declared-all specs (none ∷ keys) h = absurd (no_bool h.0)
    where
      no_bool : (false ≡ true) → ⊥
      no_bool e = cc
  declared-all specs (some name ∷ keys) (h, rest) =
      ((name, refl, exists-Declares specs name h), declared-all specs keys rest)

  all-declared :
      (specs : List StoredField) (keys : List CString)
      → AllDeclared specs keys
      → AreDeclared lib specs keys
  all-declared specs [] h = tt
  all-declared specs (key ∷ keys) ((name, e, d), rest) =
      (rw e (Declares-exists specs name d), all-declared specs keys rest)

  -- For arguments bound to an active parser, the check passes exactly if the object has every declared
  -- argument, with a value of its declared type, where a float is a finite number, and every key of
  -- the object is the name of a declared argument.
  pub validate_args-HasAll :
      (specs : List StoredField) (object : V) (p : Parser V)
      → p.active ≡ true
      → p.args ≡ some object
      → (validate_args lib specs of_parser p ≡ none)
        ↔ (HasAll specs object × AllDeclared specs (lib.keys object))
  validate_args-HasAll specs object p a o =
      let (sound, complete) = validate_args_lem lib specs object p a o in
      (
        λ h.
            let (m, d) = sound h in
            (AreMatched-HasAll object p a o specs m, declared-all specs (lib.keys object) d),
        λ h.
            complete
              (HasAll-AreMatched object p a o specs h.0, all-declared specs (lib.keys object) h.1),
      )
