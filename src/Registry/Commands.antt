-- ===== src/Registry/Commands.antt =====
-- `registerCommand` and `findCommand` of src/core/CommandRegistry.h.
use cuddly_train.Base.{
  ℕ, ◌≤◌, ◌<◌, ◌≡◌, ◌∙◌, ◌⊎◌, inl, inr, refl, Bool, true, false, not, ◌&&◌, List, [], ◌∷◌, ◌++◌,
  Option, some, none, CString, codes, arith, ltb, leb, if◌then◌else◌, length, bounded_from_lem,
  take, str_eq, str_eq_comm, str_eq_sound,
}
use cuddly_train.Status.{
  Status, is_ok, status, duplicate_registration, invalid_name, capacity_exceeded,
  invalid_argument_schema,
}
use cuddly_train.Limits.{max_args_per_command, max_registered_commands}
use cuddly_train.Registry.{
  CommandRegistration, StoredCommand, StoredField, Registry, is_null, is_sealed, refused_as_sealed,
  find_named, find_command, copy_argument, copy_arguments, ArgumentSpec, specs_of, text_of,
  store_command, register_handled, register_checked, register_command,
}
use mathlib.Core.Path.{subst}
use cuddly_train.Registry.Names.{IsName}
use cuddly_train.Registry.Text.{valid_required_string, string_failure_code}
use cuddly_train.Registry.Stored.{AreStored, copied-AreStored}

-- Two names that differ are not both equal to a third one.
names_differ :
    (a b name : List ℕ) → str_eq a b ≡ false → str_eq a name ≡ true → str_eq b name ≡ false
names_differ a b name d e = rw⁻¹ (str_eq_sound a name e) (str_eq_comm b a ∙ d)

module _ {H : Type 0} where
  -- Lookup behind a name that is new.
  pub find_named-append :
      (cs : List (StoredCommand H)) (c : StoredCommand H) (name : List ℕ)
      → is_null (find_named cs c.name) ≡ true
      → find_named (cs ++ (c ∷ [])) name
        ≡ (if str_eq c.name name then some c else find_named cs name)
  unfolding find_named
  find_named-append [] c name h = refl
  find_named-append (d ∷ cs) c name h =
      ground (arith, h, find_named-append cs c name, names_differ d.name c.name name)

-- No refusal of an argument has the code of success.
abbrev Refuses : Status ⊎ List StoredField → Type 0
Refuses (inl refusal) = is_ok refusal ≡ false
Refuses (inr args) = Unit {0}

copy_argument-Refuses :
    (spec : ArgumentSpec) (pending : List StoredField) → Refuses (copy_argument spec pending)
unfolding copy_argument
copy_argument-Refuses spec pending = ground arith

copy_arguments-Refuses :
    (specs : List ArgumentSpec) (pending : List StoredField)
    → Refuses (copy_arguments specs pending)
unfolding copy_arguments
copy_arguments-Refuses [] pending = tt
copy_arguments-Refuses (spec ∷ specs) pending =
    rest (copy_argument spec pending) (copy_argument-Refuses spec pending)
      (copy_arguments-Refuses specs)
  where
    rest :
        (out : Status ⊎ List StoredField)
        → Refuses out
        → ((p : List StoredField) → Refuses (copy_arguments specs p))
        → Refuses (elim out [ inl refusal ↦ inl refusal | inr p ↦ copy_arguments specs p ])
    rest (inl refusal) c ih = c
    rest (inr p) c ih = ih p

valid-named :
    (name : CString) (capacity : ℕ)
    → valid_required_string name capacity ≡ true
    → name ≡ some (text_of name)
valid-named none capacity h = cc
valid-named (some text) capacity h = refl

valid-IsName :
    (name : CString) (text : List ℕ)
    → valid_required_string name 48 ≡ true
    → name ≡ some text
    → IsName 48 text
valid-IsName none text v e = cc
valid-IsName (some []) text v e = cc
valid-IsName (some (c ∷ cs)) text v e =
    let same : c ∷ cs ≡ text = cc in
    subst (IsName 48) same
      (record { not_empty = omega arith; within = ground (arith, v, bounded_from_lem 49 (c ∷ cs)) })

module _ {H P K : Type 0} where
  -- A registration that is accepted, and what it has stored.
  pub record Registered (reg : CommandRegistration H) (r r' : Registry H P K) : Type 0 where
    pub stored : StoredCommand H
    pub named : reg.name ≡ some stored.name
    pub handled : reg.handler ≡ some stored.handler
    pub blocked : stored.blocked_by_estop ≡ reg.blocked_by_estop
    pub arguments : AreStored (take reg.arg_count (specs_of reg.args)) stored.args
    pub copied : copy_arguments (take reg.arg_count (specs_of reg.args)) [] ≡ inr stored.args
    pub few : reg.arg_count ≤ 8
    pub room : length r.commands < 16
    pub new : is_null (find_named r.commands stored.name) ≡ true
    pub fits : IsName 48 stored.name
    pub others : r' ≡ record r { commands = r.commands ++ (stored ∷ []) }
    pub found :
        (name : List ℕ)
        → find_command r'.commands (some name)
          ≡ (if str_eq stored.name name then some stored else find_command r.commands (some name))

  record Outcome (reg : CommandRegistration H) (r : Registry H P K) (out : Status × Registry H P K)
      : Type 0 where
    ends : ((is_ok out.0 ≡ true) × Registered reg r out.1) ⊎ ((is_ok out.0 ≡ false) × (out.1 ≡ r))

  refused :
      (reg : CommandRegistration H) (r : Registry H P K) (refusal : Status)
      → is_ok refusal ≡ false
      → Outcome reg r (refusal, r)
  refused reg r refusal n = record { ends = inr (n, refl) }

  store_command-Outcome :
      (reg : CommandRegistration H) (handler : H) (r : Registry H P K)
      (out : Status ⊎ List StoredField)
      → reg.handler ≡ some handler
      → ltb max_args_per_command reg.arg_count ≡ false
      → leb max_registered_commands (length r.commands) ≡ false
      → copy_arguments (take reg.arg_count (specs_of reg.args)) [] ≡ out
      → Refuses out
      → valid_required_string reg.name 48 ≡ true
      → is_null (find_command r.commands reg.name) ≡ true
      → Outcome reg r (store_command reg handler out r)
  unfolding find_command
  store_command-Outcome reg handler r (inl refusal) e few room a n v f = refused reg r refusal n
  store_command-Outcome reg handler r (inr args) e few room a n v f =
      let named = valid-named reg.name 48 v in
      record {
        ends = inl (
          refl,
          record {
            stored = record {
              name = text_of reg.name;
              args = args;
              blocked_by_estop = reg.blocked_by_estop;
              handler = handler;
            };
            named = named;
            handled = e;
            blocked = refl;
            arguments = copied-AreStored (take reg.arg_count (specs_of reg.args)) args a;
            copied = a;
            few = ground (arith, few);
            room = ground (arith, room);
            new = rw named at f;
            fits = valid-IsName reg.name (text_of reg.name) v named;
            others = refl;
            found = λ name. find_named-append r.commands _ name (rw named at f);
          },
        );
      }

  -- A guard that refuses.
  guard-Outcome :
      (reg : CommandRegistration H) (r : Registry H P K) (b : Bool) (refusal : Status)
      (out : Status × Registry H P K)
      → is_ok refusal ≡ false
      → (b ≡ false → Outcome reg r out)
      → Outcome reg r (if b then (refusal, r) else out)
  guard-Outcome reg r true refusal out n o = refused reg r refusal n
  guard-Outcome reg r false refusal out n o = o refl

  named-Outcome :
      (reg : CommandRegistration H) (handler : H) (r : Registry H P K)
      → reg.handler ≡ some handler
      → ltb max_args_per_command reg.arg_count ≡ false
      → leb max_registered_commands (length r.commands) ≡ false
      → valid_required_string reg.name 48 ≡ true
      → (b : Bool) → is_null (find_command r.commands reg.name) ≡ b
      → Outcome reg r (
          if not b
          then (status duplicate_registration (codes "duplicate command"), r)
          else store_command reg handler
              (copy_arguments (take reg.arg_count (specs_of reg.args)) [])
              r)
  named-Outcome reg handler r e few room v false f = refused reg r _ refl
  named-Outcome reg handler r e few room v true f =
      store_command-Outcome reg handler r _ e few room refl (copy_arguments-Refuses _ []) v f

  valid-Outcome :
      (reg : CommandRegistration H) (handler : H) (r : Registry H P K)
      → reg.handler ≡ some handler
      → ltb max_args_per_command reg.arg_count ≡ false
      → leb max_registered_commands (length r.commands) ≡ false
      → (b : Bool) → valid_required_string reg.name 48 ≡ b
      → Outcome reg r (
          if not b
          then (
            status (string_failure_code reg.name 48 invalid_name) (codes "invalid command name"),
            r,
          )
          else if not (is_null (find_command r.commands reg.name))
          then (status duplicate_registration (codes "duplicate command"), r)
          else store_command reg handler
              (copy_arguments (take reg.arg_count (specs_of reg.args)) [])
              r)
  valid-Outcome reg handler r e few room false v = refused reg r _ (ground arith)
  valid-Outcome reg handler r e few room true v = named-Outcome reg handler r e few room v _ refl

  register_handled-Outcome :
      (reg : CommandRegistration H) (handler : H) (r : Registry H P K)
      → reg.handler ≡ some handler
      → Outcome reg r (register_handled reg handler r)
  unfolding register_handled
  register_handled-Outcome reg handler r e =
      guard-Outcome reg r (ltb max_args_per_command reg.arg_count)
        (status capacity_exceeded (codes "too many command arguments")) _ refl
        λ few.
          (guard-Outcome reg r (ltb 0 reg.arg_count && is_null reg.args)
            (status invalid_argument_schema (codes "argument specs are required")) _ refl
            λ given.
              (guard-Outcome reg r (leb max_registered_commands (length r.commands))
                (status capacity_exceeded (codes "too many commands")) _ refl
                λ room. (valid-Outcome reg handler r e few room _ refl)))

  register_checked-Outcome :
      (reg : CommandRegistration H) (handler : Option H) (r : Registry H P K)
      → reg.handler ≡ handler
      → Outcome reg r (register_checked reg handler r)
  register_checked-Outcome reg none r e = refused reg r _ refl
  register_checked-Outcome reg (some handler) r e = register_handled-Outcome reg handler r e

  -- A command is either registered, so that it is found by its name, with the handler, the flag, and
  -- the names and types of the arguments that were given, in their order, and every other name is
  -- found or not as before; or the call is refused and the registry is exactly as it was.
  pub register_command_lem :
      (reg : CommandRegistration H) (r : Registry H P K)
      → let (result, r') = register_command reg r in
        ((is_ok result ≡ true) × Registered reg r r') ⊎ ((is_ok result ≡ false) × (r' ≡ r))
  unfolding register_command
  register_command_lem reg r =
      (guard-Outcome reg r (is_sealed r.lifecycle) refused_as_sealed _ refl λ unsealed.
        (guard-Outcome reg r (not reg.blocked_by_estop_specified)
          (status invalid_argument_schema (codes "blocked_by_estop must be explicit")) _ refl
          λ explicit. (register_checked-Outcome reg reg.handler r refl))).ends
