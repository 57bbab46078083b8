-- ===== src/Ethernet/Listener.antt =====
-- src/platform/qnethernet/QNEthernetNetworkServer.cpp: the server of connections and its slots.
use cuddly_train.Base.{
  ℕ, ◌%◌, ◌^◌, Bool, true, false, not, ◌&&◌, ◌||◌, List, Option, some, none, codes, ◌==◌, leb,
  if◌then◌else◌, length, get_or, set, replicate, is_some,
}
use cuddly_train.Protocol.{NetworkConfig, dhcp}
use cuddly_train.Wire.{
  ConnectionHandle, invalid_connection, is_valid_connection_handle, NetworkAvailability,
  uninitialized, no_link, address_pending, ready,
}
use cuddly_train.Platform.{Network}
use cuddly_train.Ethernet.{
  EthernetLibrary, Slot, Server, connection_slot_count, is_ready, is_static, first_reusable_slot,
  invalidate,
}
use cuddly_train.Ethernet.Transport.{read_some, write_some, connection_state, flush}

module _ {C W : Type 0} (lib : EthernetLibrary C W) where
  abbrev pub empty_slot : Slot C
  empty_slot = record { transport = lib.no_client; generation = 0; active = false; retired = false }

  abbrev pub slot_at : List (Slot C) → ℕ → Slot C
  slot_at slots i = get_or slots i empty_slot

  abbrev pub default_config : NetworkConfig
  default_config = record {
    mode = dhcp;
    listen_port = 0;
    ip = replicate 4 0;
    gateway = replicate 4 0;
    subnet = replicate 4 0;
  }

  unfoldable pub init : Server C
  init = record {
    slots = replicate connection_slot_count empty_slot;
    config = default_config;
    pending_client = lib.no_client;
    configured = false;
    interface_begin_attempted = false;
    interface_started = false;
    listening = false;
  }

  unfoldable pub configure : NetworkConfig → Server C → Server C
  configure config s = record s {
    config = config;
    configured = true;
    interface_begin_attempted = false;
    interface_started = false;
    listening = false;
  }

  unfoldable pub begin_interface_if_needed : Server C × W → Server C × W
  begin_interface_if_needed (s, w) =
      let (started, w') =
        (if is_static s.config.mode
          then lib.begin_static s.config.ip s.config.subnet s.config.gateway w
          else lib.begin_dhcp w) in
      if not s.configured || s.interface_started || s.interface_begin_attempted
      then (s, w)
      else (record s { interface_begin_attempted = true; interface_started = started }, w')

  unfoldable pub progress : Server C × W → Server C × W
  unfolding begin_interface_if_needed
  progress (s, w) = let (s', w') = begin_interface_if_needed (s, w) in (s', lib.yield (lib.loop w'))

  abbrev pub has_address : ℕ → Bool
  has_address raw = not (raw == 0) && not (raw == lib.inaddr_none)

  unfoldable pub availability : Server C × W → NetworkAvailability × W
  availability (s, w) =
      let (down, w₁) = lib.link_off w in
      let (address, w₂) = lib.local_ip w₁ in
      if not s.configured || not s.interface_started
      then (uninitialized, w)
      else if down
      then (no_link, w₁)
      else if not (has_address address)
      then (address_pending, w₂)
      else (ready, w₂)

  unfoldable pub begin : ℕ → Server C × W → Bool × Server C × W
  unfolding availability
  begin port (s, w) =
      let (available, w₁) = availability (s, w) in
      let (on, w₂) = lib.begin_with_reuse port w₁ in
      if not (is_ready available) || port == 0
      then (false, s, w₁)
      else (on, record s { listening = on }, w₂)

  unfoldable pub is_listening : Server C × W → Bool × W
  is_listening (s, w) = if s.listening then lib.server_on w else (false, w)

  unfoldable pub cache_pending_connection : Server C × W → Bool × Server C × W
  cache_pending_connection (s, w) =
      let (on, w₁) = lib.client_on s.pending_client w in
      let (client, w₂) = lib.server_accept w₁ in
      let (on', w₃) = lib.client_on client w₂ in
      if on then (true, s, w₁) else (on', record s { pending_client = client }, w₃)

  unfoldable pub has_pending_connection : Server C × W → Bool × Server C × W
  unfolding cache_pending_connection is_listening first_reusable_slot
  has_pending_connection (s, w) =
      let (on, w₁) = is_listening (s, w) in
      if not on || leb (length s.slots) (first_reusable_slot s.slots)
      then (false, s, w₁)
      else cache_pending_connection (s, w₁)

  unfoldable pub log_no_delay_failure : W → W
  log_no_delay_failure w =
      let (on, w₁) = lib.serial_on w in
      if on then lib.serial_write (codes "command-server: setNoDelay failed\n") w₁ else w₁

  abbrev pub occupy : C → Slot C → Slot C
  occupy client slot = record slot {
    transport = client;
    generation = if slot.generation == 0 then 1 else slot.generation;
    active = true;
  }

  -- `accept` from the choice of the slot on.
  abbrev pub accept_at : ℕ → Server C × W → ConnectionHandle × Server C × W
  accept_at i (s, w) =
      let client = s.pending_client in
      let slot = occupy client (slot_at s.slots i) in
      let (done, w₁) =
        lib.set_no_delay true client (lib.set_connection_timeout_enabled false client w) in
      (
        record { slot = i % 2 ^ 8; generation = slot.generation },
        record s { slots = set s.slots i slot; pending_client = lib.no_client },
        lib.set_connection_timeout_enabled false client
            (if not done then log_no_delay_failure w₁ else w₁),
      )

  unfoldable pub accept : Server C × W → ConnectionHandle × Server C × W
  unfolding has_pending_connection first_reusable_slot log_no_delay_failure
  accept (s, w) =
      let (waiting, s', w') = has_pending_connection (s, w) in
      let i = first_reusable_slot s'.slots in
      if not waiting
      then (invalid_connection, s', w')
      else if leb (length s'.slots) i
      then (invalid_connection, s', w')
      else accept_at i (s', w')

  unfoldable pub lookup : ConnectionHandle → Server C → Option (Slot C)
  lookup handle s =
      let slot = slot_at s.slots handle.slot in
      if not (is_valid_connection_handle handle) || leb (length s.slots) handle.slot
      then none
      else if not slot.active || slot.retired || not (slot.generation == handle.generation)
      then none
      else some slot

  -- `close` and `abort`, with what they do to the transport.
  abbrev pub end_with :
      (C → W → W) → ConnectionHandle → Option (Slot C) → Server C × W → Server C × W
  end_with finish handle none (s, w) = (s, w)
  end_with finish handle (some slot) (s, w) =
      (record s { slots = set s.slots handle.slot (invalidate slot) }, finish slot.transport w)

  unfoldable pub close : ConnectionHandle → Server C × W → Server C × W
  unfolding lookup invalidate
  close handle (s, w) =
      end_with (λ client w. lib.close client (lib.set_connection_timeout_enabled false client w))
        handle (lookup handle s) (s, w)

  unfoldable pub abort : ConnectionHandle → Server C × W → Server C × W
  unfolding lookup invalidate
  abort handle (s, w) = end_with lib.abort handle (lookup handle s) (s, w)

  -- The state of a call beside its result.
  abbrev pub beside : {A : Type 0} → A × Server C × W → A × (Server C × W)
  beside (a, s, w) = (a, (s, w))

  -- A call that leaves the server.
  abbrev pub over : {A : Type 0} → Server C → A × W → A × (Server C × W)
  over s (a, w) = (a, (s, w))

  -- `transport` returns the address of a slot's transport, which stays where it is: a call over it
  -- reaches the slot, whatever its generation is then.
  abbrev pub transport_at : ConnectionHandle → Server C → C
  transport_at handle s = (slot_at s.slots handle.slot).transport

  -- The server as the network of the session.
  unfoldable pub network : Network (Server C × W)
  unfolding progress availability begin is_listening has_pending_connection accept lookup abort
      connection_state read_some write_some flush
  network = record {
    progress = progress;
    availability = λ st. over st.0 (availability st);
    listen = λ port st. beside (begin port st);
    is_listening = λ st. over st.0 (is_listening st);
    has_pending_connection = λ st. beside (has_pending_connection st);
    accept = λ st. beside (accept st);
    has_transport = λ h st. (is_some (lookup h st.0), st);
    abort = abort;
    connection_state = λ h st. over st.0 (connection_state lib (transport_at h st.0) st.1);
    read_some = λ h n st. over st.0 (read_some lib (transport_at h st.0) (some n) st.1);
    write_some = λ h bytes st. over st.0 (write_some lib (transport_at h st.0) (some bytes) st.1);
    flush = λ h st. (st.0, (flush lib (transport_at h st.0) st.1).1);
  }
