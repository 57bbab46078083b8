-- ===== src/Registry/Identity.antt =====
-- `setIdentity` of src/core/CommandRegistry.h, which copies field by field into the registry.
use cuddly_train.Base.{ℕ, ◌≡◌, refl, true, false, List, [], ◌∷◌, some, none, CString, arith}
use cuddly_train.Status.{is_ok, invalid_configuration}
use cuddly_train.Limits.{max_board_id_bytes, max_protocol_version_bytes}
use cuddly_train.Protocol.{BoardIdentity}
use cuddly_train.Registry.{Registry, is_sealed, set_identity, validate_metadata_for_seal}
use cuddly_train.Registry.Text.{is_copied, copy_required, copy_status, CopyResult}

copied-some :
    (source : CString) (capacity : ℕ)
    → is_copied (copy_required source capacity).0 ≡ true
    → source ≡ some (copy_required source capacity).1
copied-some none capacity h = cc
copied-some (some []) capacity h = cc
copied-some (some (c ∷ cs)) capacity h = ground (arith, h)

not_copied-nil :
    (source : CString) (capacity : ℕ)
    → is_copied (copy_required source capacity).0 ≡ false
    → (copy_required source capacity).1 ≡ []
not_copied-nil none capacity h = refl
not_copied-nil (some []) capacity h = refl
not_copied-nil (some (c ∷ cs)) capacity h = ground (arith, h)

copy_status-fails :
    (c : CopyResult) (message : List ℕ)
    → is_ok (copy_status c invalid_configuration message) ≡ false
copy_status-fails CopyResult.ok message = refl
copy_status-fails CopyResult.missing message = refl
copy_status-fails CopyResult.too_long message = refl

module _ {H P K : Type 0} where
  -- A second identity that is refused is not undone. On a registry that may still change and has
  -- all that a seal needs, an identity with a good board id and a bad protocol version is refused,
  -- but the new board id stays beside an empty protocol version, and the registry still passes the
  -- checks for sealing.
  pub set_identity_lem :
      (identity : BoardIdentity) (r : Registry H P K)
      → is_sealed r.lifecycle ≡ false
      → is_ok (validate_metadata_for_seal r) ≡ true
      → is_copied (copy_required identity.board_id max_board_id_bytes).0 ≡ true
      → is_copied (copy_required identity.protocol_version max_protocol_version_bytes).0 ≡ false
      → let (result, r') = set_identity identity r in
        (is_ok result ≡ false)
        × (identity.board_id ≡ some r'.board_id)
        × (r'.protocol_version ≡ [])
        × (is_ok (validate_metadata_for_seal r') ≡ true)
  unfolding set_identity validate_metadata_for_seal
  set_identity_lem identity r u v a b =
      rw (u, a, b, set_identity)
        (
          copy_status-fails (copy_required identity.protocol_version 8).0 _,
          copied-some identity.board_id 48 a,
          not_copied-nil identity.protocol_version 8 b,
          v,
        )
