-- ===== src/Registry/Acceptance.antt =====
-- When `registerCommand` of src/core/CommandRegistry.h accepts a registration.
use cuddly_train.Base.{
  ℕ, ◌≤◌, ◌<◌, ◌≡◌, ◌≢◌, ◌∙◌, ◌⊎◌, inl, inr, sym, refl, ap, true, false, List, [], ◌∷◌, ◌++◌,
  Option, some, none, arith, is_some, length, take, str_eq, str_eq_sound, bounded_from_lem,
  Bool-cases, Option-cases, ltb, ◌&&◌,
}
use cuddly_train.Status.{is_ok}
use cuddly_train.Registry.{
  ValueType, other, valid_value_type, ArgumentSpec, StoredField, StoredCommand, CommandRegistration,
  Registry, is_null, is_sealed, specs_of, text_of, field_name_exists, find_named, find_command,
  copy_argument, copy_arguments, register_command, register_handled,
}
use cuddly_train.Registry.Text.{valid_required_string}
use cuddly_train.Registry.Names.{IsName}
use cuddly_train.Registry.Commands.{Registered, register_command_lem}

-- No field, and no command, has a name.
abbrev pub IsNew : List ℕ → List StoredField → Type 0
IsNew name [] = Unit {0}
IsNew name (field ∷ fields) = (field.name ≢ name) × IsNew name fields

abbrev pub IsUnused : {H : Type 0} → List ℕ → List (StoredCommand H) → Type 0
IsUnused name [] = Unit {0}
IsUnused name (command ∷ commands) = (command.name ≢ name) × IsUnused name commands

-- Arguments behind those of `before`: each has a name that is not empty, has at most 48 bytes and is
-- new, and a type of the enumeration.
abbrev pub AreAcceptable : List StoredField → List ArgumentSpec → Type 0
AreAcceptable before [] = Unit {0}
AreAcceptable before (spec ∷ specs) =
    ((text : List ℕ) × (spec.name ≡ some text)
      × IsName 48 text
      × (spec.type ≢ other)
      × IsNew text before)
    × AreAcceptable (before ++ (record { name = text_of spec.name; type = spec.type } ∷ [])) specs

-- A registration that a registry has no reason to refuse.
pub record IsAcceptable {H P K : Type 0} (reg : CommandRegistration H) (r : Registry H P K)
    : Type 0 where
  pub text : List ℕ
  pub unsealed : is_sealed r.lifecycle ≡ false
  pub explicit : reg.blocked_by_estop_specified ≡ true
  pub handled : is_some reg.handler ≡ true
  pub few : reg.arg_count ≤ 8
  pub given : 0 < reg.arg_count → is_some reg.args ≡ true
  pub room : length r.commands < 16
  pub named : reg.name ≡ some text
  pub fits : IsName 48 text
  pub unused : IsUnused text r.commands
  pub acceptable : AreAcceptable [] (take reg.arg_count (specs_of reg.args))

differs : (a b : List ℕ) → a ≢ b → str_eq a b ≡ false
differs a b n = elim (Bool-cases (str_eq a b)) [
  | inl e ↦ absurd (n (str_eq_sound a b e))
  | inr e ↦ e
]

IsNew-exists :
    (name : List ℕ) (fields : List StoredField)
    → IsNew name fields
    → field_name_exists fields name ≡ false
unfolding field_name_exists
IsNew-exists name [] n = refl
IsNew-exists name (field ∷ fields) (d, n) =
    ground (arith, differs field.name name d, IsNew-exists name fields n)

IsUnused-find :
    {H : Type 0} (name : List ℕ) (commands : List (StoredCommand H))
    → IsUnused name commands
    → find_named commands name ≡ none
unfolding find_named
IsUnused-find name [] n = refl
IsUnused-find name (command ∷ commands) (d, n) =
    rw (differs command.name name d) (IsUnused-find name commands n)

valid_type : (type : ValueType) → type ≢ other → valid_value_type type ≡ true
valid_type other n = absurd (n refl)
valid_type ValueType.int n = refl
valid_type ValueType.float n = refl
valid_type ValueType.bool n = refl
valid_type ValueType.string n = refl

copied :
    (text : List ℕ) (type : ValueType) (before : List StoredField)
    → IsName 48 text
    → type ≢ other
    → IsNew text before
    → copy_argument (record { name = some text; type = type }) before
      ≡ inr (before ++ (record { name = text; type = type } ∷ []))
unfolding copy_argument
copied [] type before v t n = absurd (omega (arith, v.not_empty))
copied (c ∷ cs) type before v t n = ground (
  arith,
  v.within,
  bounded_from_lem 49 (c ∷ cs),
  valid_type type t,
  IsNew-exists (c ∷ cs) before n,
)

copied_all :
    (before : List StoredField) (specs : List ArgumentSpec)
    → AreAcceptable before specs
    → (fields : List StoredField) × (copy_arguments specs before ≡ inr fields)
unfolding copy_arguments
copied_all before [] a = (before, refl)
copied_all before (spec ∷ specs) ((text, named, v, t, n), rest) =
    let e : copy_argument spec before
        ≡ inr (before ++ (record { name = text_of spec.name; type = spec.type } ∷ [])) =
      rw named (copied text spec.type before v t n) in
    rw (e, copy_arguments) (copied_all _ specs rest)

valid_name : (text : List ℕ) → IsName 48 text → valid_required_string (some text) 48 ≡ true
valid_name [] v = absurd (omega (arith, v.not_empty))
valid_name (c ∷ cs) v = ground (arith, v.within, bounded_from_lem 49 (c ∷ cs))

-- The array of the arguments is there where it is needed.
array_given :
    {A : Type 0} (count : ℕ) (o : Option A)
    → (0 < count → is_some o ≡ true)
    → (ltb 0 count && is_null o) ≡ false
array_given count none given = elim (Bool-cases (ltb 0 count)) [
  | inl e ↦ absurd (no_array (given (ground (arith, e))))
  | inr e ↦ rw e refl
]
  where
    no_array : (false ≡ true) → ⊥
    no_array e = cc
array_given count (some a) given = ground arith

module _ {H P K : Type 0} where
  handled-accepted :
      (reg : CommandRegistration H) (handler : H) (r : Registry H P K)
      → IsAcceptable reg r
      → is_ok (register_handled reg handler r).0 ≡ true
  unfolding register_handled find_command
  handled-accepted reg handler r a =
      let (fields, e) = copied_all [] (take reg.arg_count (specs_of reg.args)) a.acceptable in
      rw (e, a.named)
        (ground (
          arith,
          a.few,
          a.given,
          a.room,
          valid_name a.text a.fits,
          IsUnused-find a.text r.commands a.unused,
        ))

  accepted :
      (reg : CommandRegistration H) (r : Registry H P K)
      → IsAcceptable reg r
      → is_ok (register_command reg r).0 ≡ true
  unfolding register_command
  accepted reg r a = elim (Option-cases reg.handler) [
    | inl e ↦ absurd (no_handler (sym (ap is_some e) ∙ a.handled))
    | inr (handler, e) ↦ rw (a.unsealed, a.explicit, e) (handled-accepted reg handler r a)
  ]
    where
      no_handler : (false ≡ true) → ⊥
      no_handler e = cc

  -- A command is either registered, so that it is found by its name, with the handler, the flag, and
  -- the names and types of the arguments that were given, in their order, and every other name is
  -- found or not as before; or the call is refused, the registry is exactly as it was, and there is a
  -- reason: the registry is sealed or full, the handler, the flag, or the array of the arguments
  -- that are counted is missing, there are more than eight arguments, or a name is missing, empty, too long or taken, or a
  -- type is none of the enumeration.
  pub register_command-Acceptance :
      (reg : CommandRegistration H) (r : Registry H P K)
      → let (result, r') = register_command reg r in
        ((is_ok result ≡ true) × Registered reg r r')
        ⊎ ((is_ok result ≡ false) × (r' ≡ r) × (IsAcceptable reg r → ⊥))
  register_command-Acceptance reg r = elim (register_command_lem reg r) [
    | inl done ↦ inl done
    | inr (refused, same) ↦ inr (refused, same, λ a. clash (sym (accepted reg r a) ∙ refused))
  ]
    where
      clash : (true ≡ false) → ⊥
      clash e = cc
