-- ===== src/Registry/Stored.antt =====
-- The arguments that `registerCommand` of src/core/CommandRegistry.h stores.
use cuddly_train.Base.{
  ℕ, ◌≡◌, ◌∙◌, ◌⊎◌, inl, inr, sym, refl, ap, List, [], ◌∷◌, ◌++◌, some, none, CString, arith,
  bounded_from_lem,
}
use cuddly_train.Status.{Status}
use cuddly_train.Registry.{StoredField, copy_argument, copy_arguments, ArgumentSpec}
use mathlib.Core.Path.{subst}
use mathlib.Core.List.{append-nil, append_assoc}
use cuddly_train.Registry.{ValueType}
use cuddly_train.Registry.Names.{IsName}

-- The stored arguments are those of the registration, in order: each with its name, which is not
-- empty and fits, and its type.
abbrev pub AreStored : List ArgumentSpec → List StoredField → Type 0
AreStored [] [] = Unit {0}
AreStored [] (field ∷ fields) = ⊥
AreStored (spec ∷ specs) [] = ⊥
AreStored (spec ∷ specs) (field ∷ fields) =
    (spec.name ≡ some field.name)
    × (field.type ≡ spec.type)
    × IsName 48 field.name
    × AreStored specs fields

copy_argument-stored :
    (name : CString) (type : ValueType) (pending out : List StoredField)
    → copy_argument (record { name = name; type = type }) pending ≡ inr out
    → (text : List ℕ) × (name ≡ some text)
      × IsName 48 text
      × (out ≡ pending ++ (record { name = text; type = type } ∷ []))
unfolding copy_argument
copy_argument-stored none type pending out h = absurd (ground (arith, h))
copy_argument-stored (some []) type pending out h = absurd (ground (arith, h))
copy_argument-stored (some (c ∷ cs)) type pending out h = (
  c ∷ cs,
  refl,
  record { not_empty = omega arith; within = ground (arith, h, bounded_from_lem 49 (c ∷ cs)) },
  ground (arith, h),
)

copy_arguments-AreStored :
    (specs : List ArgumentSpec) (pending out : List StoredField)
    → copy_arguments specs pending ≡ inr out
    → (fields : List StoredField) × (out ≡ pending ++ fields) × AreStored specs fields
unfolding copy_arguments
copy_arguments-AreStored [] pending out h = ([], cc (append-nil pending), tt)
copy_arguments-AreStored (spec ∷ specs) pending out h =
    step (copy_argument spec pending) refl (copy_arguments-AreStored specs) h
  where
    step :
        (o : Status ⊎ List StoredField)
        → copy_argument spec pending ≡ o
        → ((p q : List StoredField)
            → copy_arguments specs p ≡ inr q
            → (fields : List StoredField) × (q ≡ p ++ fields) × AreStored specs fields)
        → (elim o [ inl refusal ↦ inl refusal | inr p ↦ copy_arguments specs p ]) ≡ inr out
        → (fields : List StoredField) × (out ≡ pending ++ fields) × AreStored (spec ∷ specs) fields
    step (inl refusal) e ih h = cc
    step (inr p) e ih h =
        let (text, named, fits, grown) = copy_argument-stored spec.name spec.type pending p e in
        let (fields, all, stored) = ih p out h in
        (
          record { name = text; type = spec.type } ∷ fields,
          all
              ∙ ap (λ q. q ++ fields) grown
              ∙ append_assoc pending (record { name = text; type = spec.type } ∷ []) fields,
          (named, refl, fits, stored),
        )

pub copied-AreStored :
    (specs : List ArgumentSpec) (out : List StoredField)
    → copy_arguments specs [] ≡ inr out
    → AreStored specs out
copied-AreStored specs out h =
    let (fields, e, stored) = copy_arguments-AreStored specs [] out h in
    subst (AreStored specs) (sym e) stored
