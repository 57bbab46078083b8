-- ===== src/Status.antt =====
-- src/api/ServerStatus.h: what the calls of the setup return.
use cuddly_train.Base.{ℕ, Bool, true, false, List}

pub data StatusCode : Type 0 where
  ok duplicate_registration registration_sealed capacity_exceeded invalid_name : StatusCode
  invalid_argument_schema invalid_configuration network_start_failed no_telemetry_provider :
      StatusCode
  no_estop_hook no_controller_loss_hook : StatusCode

pub record Status : Type 0 where
  pub code : StatusCode
  pub message : List ℕ

abbrev pub status : StatusCode → List ℕ → Status
status code message = record { code = code; message = message }

abbrev pub is_ok : Status → Bool
is_ok s = elim s.code [ ok ↦ true | _ ↦ false ]
