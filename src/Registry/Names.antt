-- ===== src/Registry/Names.antt =====
-- The names of arguments and fields in src/core/CommandRegistry.h, and the lists that hold them.
use cuddly_train.Base.{
  ℕ, suc, ◌+◌, ◌≤◌, ◌<◌, ◌≡◌, ◌⊎◌, inl, inr, refl, true, false, ◌||◌, List, [], ◌∷◌, ◌++◌, some,
  none, CString, arith, length, length-append, bounded_from_lem, str_eq, str_eq_comm, Bool-cases,
}
use cuddly_train.Registry.{
  valid_value_type, ArgumentSpec, StoredField, Lifecycle, field_name_exists, copy_argument,
  copy_arguments, register_field,
}
use cuddly_train.Status.{Status}
use cuddly_train.Registry.Text.{is_copied, copy_required}

pub record IsName (capacity : ℕ) (name : List ℕ) : Type 0 where
  pub not_empty : 0 < length name
  pub within : length name ≤ capacity

abbrev pub AreFields : List StoredField → Type 0
AreFields [] = Unit {0}
AreFields (f ∷ fs) =
    (field_name_exists fs f.name ≡ false)
    × IsName 48 f.name
    × (valid_value_type f.type ≡ true)
    × AreFields fs

pub copy_required-IsName :
    (source : CString) (capacity : ℕ)
    → is_copied (copy_required source capacity).0 ≡ true
    → IsName capacity (copy_required source capacity).1
copy_required-IsName none capacity h = cc
copy_required-IsName (some []) capacity h = cc
copy_required-IsName (some (c ∷ cs)) capacity h =
    ground (arith, bounded_from_lem (suc capacity) (c ∷ cs))

field_name_exists-append :
    (fs : List StoredField) (f : StoredField) (name : List ℕ)
    → field_name_exists (fs ++ (f ∷ [])) name ≡ (field_name_exists fs name || str_eq f.name name)
unfolding field_name_exists
field_name_exists-append [] f name = ground arith
field_name_exists-append (g ∷ fs) f name = ground (arith, field_name_exists-append fs f name)

AreFields-append :
    (fs : List StoredField) (f : StoredField)
    → AreFields fs
    → field_name_exists fs f.name ≡ false
    → IsName 48 f.name
    → valid_value_type f.type ≡ true
    → AreFields (fs ++ (f ∷ []))
unfolding field_name_exists
AreFields-append [] f v e n t = (refl, n, t, tt)
AreFields-append (g ∷ fs) f v e n t = (
  ground (arith, field_name_exists-append fs f g.name, str_eq_comm f.name g.name, v.0),
  v.1,
  v.2,
  AreFields-append fs f v.3 (ground arith) n t,
)

-- The arguments that a loop has copied.
abbrev pub Copied : ℕ → {A : Type 0} → A ⊎ List StoredField → Type 0
Copied n (inl refusal) = Unit {0}
Copied n (inr args) = AreFields args × (length args ≡ n)

copy_argument-Copied :
    (spec : ArgumentSpec) (pending : List StoredField)
    → AreFields pending
    → Copied (length pending + 1) (copy_argument spec pending)
unfolding copy_argument
copy_argument-Copied spec pending v =
    let (result, name) = copy_required spec.name 48 in
    elim (Bool-cases (valid_value_type spec.type)) [
      | inr t ↦ ground (arith, t)
      | inl t ↦ elim (Bool-cases (is_copied result)) [
        | inr c ↦ ground (arith, t, c)
        | inl c ↦ elim (Bool-cases (field_name_exists pending name)) [
          | inl e ↦ ground (arith, t, c, e)
          | inr e ↦
              rw (t, c, e, copy_argument)
                (
                  AreFields-append pending (record { name = name; type = spec.type }) v e
                      (copy_required-IsName spec.name 48 c) t,
                  length-append pending (record { name = name; type = spec.type } ∷ []),
                )
        ]
      ]
    ]

pub copy_arguments-Copied :
    (specs : List ArgumentSpec) (pending : List StoredField)
    → AreFields pending
    → Copied (length pending + length specs) (copy_arguments specs pending)
unfolding copy_arguments
copy_arguments-Copied [] pending v = (v, omega arith)
copy_arguments-Copied (spec ∷ specs) pending v =
    rest (copy_argument spec pending) (copy_argument-Copied spec pending v)
      (λ p w. copy_arguments-Copied specs p w)
  where
    rest :
        (out : Status ⊎ List StoredField)
        → Copied (length pending + 1) out
        → ((p : List StoredField)
            → AreFields p
            → Copied (length p + length specs) (copy_arguments specs p))
        → Copied
            (length pending + length (spec ∷ specs))
            (elim out [ inl refusal ↦ inl refusal | inr p ↦ copy_arguments specs p ])
    rest (inl refusal) c ih = tt
    rest (inr p) c ih = again (copy_arguments specs p) (ih p c.0)
      where
        again :
            (out : Status ⊎ List StoredField)
            → Copied (length p + length specs) out
            → Copied (length pending + length (spec ∷ specs)) out
        again (inl refusal) k = tt
        again (inr args) k = (k.0, omega (arith, k.1, c.1))

-- A field is stored or the list stays as it was.
pub register_field-AreFields :
    (lifecycle : Lifecycle) (field : ArgumentSpec) (capacity : ℕ) (fields : List StoredField)
    → AreFields fields
    → length fields ≤ capacity
    → let (_, fields') = register_field lifecycle field capacity fields in
      AreFields fields' × (length fields' ≤ capacity)
unfolding register_field
register_field-AreFields lifecycle field capacity fields v l =
    let (result, name) = copy_required field.name 48 in
    let f : StoredField = record { name = name; type = field.type } in
    elim (Bool-cases (valid_value_type field.type)) [
      | inr t ↦ ground (arith, t)
      | inl t ↦ elim (Bool-cases (is_copied result)) [
        | inr c ↦ ground (arith, t, c)
        | inl c ↦ elim (Bool-cases (field_name_exists fields name)) [
          | inl e ↦ ground (arith, t, c, e)
          | inr e ↦
              let grown : AreFields (fields ++ (f ∷ [])) =
                AreFields-append fields f v e (copy_required-IsName field.name 48 c) t in
              ground (arith, t, c, e, grown, length-append fields (f ∷ []))
        ]
      ]
    ]
