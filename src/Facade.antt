-- ===== src/Facade.antt =====
-- src/TeensyCommandServer.h: the server that the board's sketch holds. Its state is here, its
-- setup in `Facade/Calls`, `start` in `Facade/Launch`, and a round in `Facade/Service`.
pub mod Calls
pub mod Launch
pub mod Service
pub mod Start
pub mod Routing
pub mod Rounds
pub mod History
pub mod Setup
mod Tests
use cuddly_train.Base.{
  ℕ, Bool, true, false, not, ◌&&◌, List, [], ◌∷◌, Option, some, none, CString, codes, ◌==◌, ltb,
  if◌then◌else◌, take, get_or, replicate,
}
use cuddly_train.Limits.{schema_json_buffer_bytes}
use cuddly_train.Counters.{Counters, zero_counters}
use cuddly_train.Status.{
  Status, status, is_ok, registration_sealed, invalid_configuration, invalid_argument_schema,
}
use cuddly_train.Protocol.{BoardIdentity, NetworkConfig, Mode, dhcp, static_ipv4, other_mode}
use cuddly_train.Wire.{invalid_connection, explicit_shutdown}
use cuddly_train.Platform.{Clock, Network}
use cuddly_train.Framer as Framer
use cuddly_train.Writer as Writer
use cuddly_train.Session.{Session, boot_safe}
use cuddly_train.Session.Sender.{sender}
use cuddly_train.Session.Driver.{begin}
use cuddly_train.Outbound.{Scheduler, clear, empty_entry, not_pending}
use cuddly_train.Estop.{EstopHandler, request_estop_triggered}
use cuddly_train.Estop as Estop
use cuddly_train.Telemetry.{Telemetry}
use cuddly_train.Telemetry as Telemetry
use cuddly_train.Inbound.{Parser}
use cuddly_train.Registry.{
  Registry, CommandRegistration, ArgumentSpec, is_sealed, is_null, ok_status, specs_of,
  set_identity, register_command, register_telemetry_field, register_state_field,
  set_telemetry_provider, set_estop_hook, set_controller_loss_hook, validate_metadata_for_seal,
  commit_seal,
}
use cuddly_train.Registry as Registry
use cuddly_train.Schema.{build_schema_line, validate_maximum_schema_size}
use cuddly_train.Dispatch.{Handler}
use cuddly_train.Dispatch.Diagnostics.{register_diagnostics, handle_diagnostics}

-- The board's code: what provides the telemetry, and the hooks.
abbrev pub Provider : Type 0 → Type 0
Provider W = W → Option (List ℕ) × W

abbrev pub Hook : Type 0 → Type 0
Hook W = W → Bool × W

abbrev pub Board : Type 0 → Type 0 → Type 0
Board V W = Registry (Handler V W) (Provider W) (Hook W)

pub record CommandSpec : Type 0 where
  pub name : CString
  pub args : Option (List ArgumentSpec)
  pub arg_count : ℕ
  pub blocked_by_estop : Bool

-- `identity_` holds pointers into the registry's buffers, or null pointers before it is set: whether
-- it is set. `attached` says which constructor was used. The session and the telemetry scheduler are
-- `none` until `start` makes them; the counters are one object for all parts.
pub record Facade (V W : Type 0) : Type 0 where
  pub attached : Bool
  pub counters : Counters
  pub registry : Board V W
  pub scheduler : Scheduler
  pub estop_handler : EstopHandler
  pub identity_bound : Bool
  pub network_config : NetworkConfig
  pub network_config_set : Bool
  pub started : Bool
  pub session : Option Session
  pub telemetry : Option Telemetry
  pub parser : Parser V

abbrev pub is_mode : Mode → Bool
is_mode other_mode = false
is_mode _ = true

abbrev pub is_static : Mode → Bool
is_static static_ipv4 = true
is_static _ = false

abbrev pub all_zero : List ℕ → Bool
all_zero bytes =
    (get_or bytes 0 0 == 0)
    && (get_or bytes 1 0 == 0)
    && (get_or bytes 2 0 == 0)
    && (get_or bytes 3 0 == 0)

-- The clock is null exactly if the facade is not attached.
abbrev pub clock_if : {W : Type 0} → Bool → Clock W → Option (Clock W)
clock_if attached clock = if attached then some clock else none

-- `SessionDriver`'s constructor.
abbrev pub new_session : Counters → Session
new_session counters = record {
  configured = true;
  state = boot_safe;
  active_handle = invalid_connection;
  replacement_handle = invalid_connection;
  pending_teardown_reason = explicit_shutdown;
  teardown_pending = false;
  network_init_attempted = false;
  next_network_init_ms = 0;
  framer = Framer.init;
  writer = Writer.init;
  counters = counters;
}

module _ {V W : Type 0} where
  -- `CommandRegistry::identity`.
  abbrev pub registry_identity : Board V W → BoardIdentity
  registry_identity r = record {
    board_id = some r.board_id;
    protocol_version = some r.protocol_version;
    firmware_version = some r.firmware_version;
  }

  abbrev pub identity_of : Facade V W → BoardIdentity
  identity_of f =
      if f.identity_bound
      then registry_identity f.registry
      else record { board_id = none; protocol_version = none; firmware_version = none }

  unfoldable pub init : Bool → Facade V W
  init attached = record {
    attached = attached;
    counters = zero_counters;
    registry = Registry.init;
    scheduler = clear (record {
      entries = replicate 4 empty_entry;
      critical_count = 0;
      telemetry_bytes = [];
      telemetry_active = false;
      estop_triggered_state = not_pending;
    });
    estop_handler = Estop.init;
    identity_bound = false;
    network_config = record {
      mode = dhcp;
      listen_port = 0;
      ip = replicate 4 0;
      gateway = replicate 4 0;
      subnet = replicate 4 0;
    };
    network_config_set = false;
    started = false;
    session = none;
    telemetry = none;
    parser = record { args = none; active = false; payload = none };
  }
