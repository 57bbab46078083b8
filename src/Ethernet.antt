-- ===== src/Ethernet.antt =====
-- src/platform/qnethernet: the network of the board on the Ethernet library, QNEthernetTransport.cpp
-- and QNEthernetNetworkServer.cpp with their headers. The library is a parameter.
pub mod Transport
pub mod Listener
pub mod Handles
pub mod Accept
pub mod Stale
pub mod Clock
mod Tests
use cuddly_train.Base.{
  ℕ, zero, suc, ◌+◌, ◌%◌, ◌^◌, ◌-◌, min, Bool, true, false, not, ◌&&◌, ◌||◌, List, [], ◌∷◌, Option,
  some, none, codes, ◌==◌, leb, if◌then◌else◌, length, take, get_or, set, replicate, is_some,
}
use cuddly_train.Json.Decimal.{ℤ, pos, negsuc}
use cuddly_train.Protocol.{NetworkConfig, Mode, dhcp, static_ipv4, other_mode}
use cuddly_train.Wire.{
  LineView, ConnectionHandle, invalid_connection, is_valid_connection_handle,
  TransportConnectionState, is_open, bytes_available, closed, link_down, NetworkAvailability,
  uninitialized, no_link, address_pending, ready,
}
use cuddly_train.Platform.{Network}

-- What the platform calls of the library, of the listening server and of `Serial`. A client is a
-- handle that is copied; `read` returns its count beside the bytes in the buffer.
pub record EthernetLibrary (C W : Type 0) : Type 0 where
  pub loop : W → W
  pub yield : W → W
  pub link_off : W → Bool × W
  pub local_ip : W → ℕ × W
  pub inaddr_none : ℕ
  pub begin_dhcp : W → Bool × W
  pub begin_static : List ℕ → List ℕ → List ℕ → W → Bool × W
  pub begin_with_reuse : ℕ → W → Bool × W
  pub server_on : W → Bool × W
  pub server_accept : W → C × W
  pub no_client : C
  pub client_on : C → W → Bool × W
  pub set_connection_timeout_enabled : Bool → C → W → W
  pub set_no_delay : Bool → C → W → Bool × W
  pub available : C → W → ℤ × W
  pub read : C → ℕ → W → ℤ × List ℕ × W
  pub write : C → List ℕ → W → ℕ × W
  pub flush : C → W → W
  pub close : C → W → W
  pub abort : C → W → W
  pub serial_on : W → Bool × W
  pub serial_write : List ℕ → W → W

-- A positive `int` as a size, and 0 for any other.
abbrev pub positive : ℤ → ℕ
positive (pos n) = n
positive (negsuc n) = 0

-- A transport is its client.
pub record Slot (C : Type 0) : Type 0 where
  pub transport : C
  pub generation : ℕ
  pub active : Bool
  pub retired : Bool

pub record Server (C : Type 0) : Type 0 where
  pub slots : List (Slot C)
  pub config : NetworkConfig
  pub pending_client : C
  pub configured : Bool
  pub interface_begin_attempted : Bool
  pub interface_started : Bool
  pub listening : Bool

abbrev pub connection_slot_count : ℕ
connection_slot_count = 2

abbrev pub is_ready : NetworkAvailability → Bool
is_ready ready = true
is_ready _ = false

abbrev pub is_static : Mode → Bool
is_static static_ipv4 = true
is_static _ = false

module _ {C : Type 0} where
  abbrev pub is_free : Slot C → Bool
  is_free slot = not slot.active && not slot.retired

  unfoldable pub first_reusable_slot : List (Slot C) → ℕ
  first_reusable_slot [] = 0
  first_reusable_slot (slot ∷ slots) = if is_free slot then 0 else suc (first_reusable_slot slots)

  unfoldable pub invalidate : Slot C → Slot C
  invalidate slot =
      let next = (slot.generation + 1) % 2 ^ 32 in
      if slot.generation == 2 ^ 32 - 1
      then record slot { active = false; generation = 0; retired = true }
      else if next == 0
      then record slot { active = false; generation = next; retired = true }
      else record slot { active = false; generation = next }
