-- ===== src/Registry/Text.antt =====
-- The texts that src/core/CommandRegistry.h copies into its arrays.
use cuddly_train.Base.{
  ℕ, suc, Bool, true, false, List, [], ◌∷◌, some, none, CString, ltb, leb, if◌then◌else◌,
  bounded_from,
}
use cuddly_train.Status.{Status, StatusCode, status, capacity_exceeded}

pub data CopyResult : Type 0 where
  ok missing too_long : CopyResult

abbrev pub bounded_length : List ℕ → ℕ → ℕ
bounded_length source capacity = bounded_from (suc capacity) source

-- The result, and what stands in the destination afterwards.
abbrev pub copy_required : CString → ℕ → CopyResult × List ℕ
copy_required none capacity = (missing, [])
copy_required (some []) capacity = (missing, [])
copy_required (some (c ∷ cs)) capacity =
    if ltb capacity (bounded_length (c ∷ cs) capacity) then (too_long, []) else (ok, c ∷ cs)

abbrev pub valid_required_string : CString → ℕ → Bool
valid_required_string none capacity = false
valid_required_string (some []) capacity = false
valid_required_string (some (c ∷ cs)) capacity = leb (bounded_length (c ∷ cs) capacity) capacity

abbrev pub string_failure_code : CString → ℕ → StatusCode → StatusCode
string_failure_code none capacity code = code
string_failure_code (some []) capacity code = code
string_failure_code (some (c ∷ cs)) capacity code =
    if ltb capacity (bounded_length (c ∷ cs) capacity) then capacity_exceeded else code

abbrev pub copy_status : CopyResult → StatusCode → List ℕ → Status
copy_status too_long code message = status capacity_exceeded message
copy_status _ code message = status code message

abbrev pub is_copied : CopyResult → Bool
is_copied ok = true
is_copied _ = false
