-- ===== src/Facade/Launch.antt =====
-- `start` of src/TeensyCommandServer.h.
use cuddly_train.Base.{ℕ, true, not, List, Option, some, codes, if◌then◌else◌}
use cuddly_train.Limits.{schema_json_buffer_bytes}
use cuddly_train.Status.{Status, status, is_ok, invalid_configuration}
use cuddly_train.Platform.{Clock, Network}
use cuddly_train.Session.Sender.{sender}
use cuddly_train.Session.Driver.{begin}
use cuddly_train.Telemetry.{Telemetry}
use cuddly_train.Telemetry as Telemetry
use cuddly_train.Registry.{ok_status, validate_metadata_for_seal, commit_seal}
use cuddly_train.Schema.{build_schema_line, validate_maximum_schema_size}
use cuddly_train.Facade.{Board, new_session, registry_identity, Facade}
use cuddly_train.Facade.Calls.{on_registry}

-- The clock and the network of an attached facade; `fuel` bounds the rounds of a send.
module _ {V W : Type 0} (clock : Clock W) (network : Network W) (fuel : ℕ) where
  -- `SchemaBuilder::buildSchemaLine` for a session, `none` where its status is not ok.
  unfoldable pub schema_for : Board V W → W → Option (List ℕ) × W
  unfolding build_schema_line
  schema_for r w =
      let ((_, line), w') =
        build_schema_line r (registry_identity r) clock w (some schema_json_buffer_bytes) in
      (line, w')

  -- `start` behind its checks, for an attached facade.
  abbrev pub launch : Facade V W × W → Facade V W × W
  launch (s, w) =
      let r = s.registry in
      let (session, w') =
        begin clock network s.network_config.listen_port r.controller_loss_hook (schema_for r)
          (sender clock network fuel) (new_session s.counters, w) in
      (record s { telemetry = some Telemetry.init; session = some session }, w')

  unfoldable pub start : Facade V W × W → Status × Facade V W × W
  unfolding validate_metadata_for_seal validate_maximum_schema_size commit_seal begin
  start (s, w) =
      let metadata = validate_metadata_for_seal s.registry in
      let size = validate_maximum_schema_size s.registry (registry_identity s.registry) in
      let (sealed, s₁) = on_registry commit_seal s in
      let s₂ = record s₁ { identity_bound = true; started = true } in
      if not s.network_config_set
      then (status invalid_configuration (codes "network config is required"), s, w)
      else if not (is_ok metadata)
      then (metadata, s, w)
      else if not (is_ok size)
      then (size, s, w)
      else if not (is_ok sealed)
      then (sealed, s, w)
      else if s.attached
      then (let (s₃, w') = launch (s₂, w) in (ok_status, s₃, w'))
      else (ok_status, s₂, w)
