-- ===== src/Ethernet/Tests.antt =====
-- A server on a library whose clients are numbers: 0 is none, and any other is connected.
use cuddly_train.Base.{
  ℕ, zero, suc, ◌+◌, ◌-◌, ◌%◌, ◌^◌, ◌≤◌, ◌<◌, ◌≡◌, ◌⊎◌, refl, true, false, not, List, [], ◌∷◌, some,
  none, arith, ◌==◌, length,
}
use cuddly_train.Json.Decimal.{pos, negsuc}
use cuddly_train.Wire.{ConnectionHandle, invalid_connection}
use cuddly_train.Ethernet.{EthernetLibrary, Server, Slot}
use cuddly_train.Ethernet.Listener.{
  init, configure, default_config, lookup, has_pending_connection, accept, availability,
}
use cuddly_train.Ethernet.Handles.{Call, accept_call, abort_call, progress_call, run}
use cuddly_train.Platform.{elapsed}
use cuddly_train.Ethernet.Clock.{board_clock, IsCounter, elapsed-board_clock}
use cuddly_train.Ethernet.Stale.{IsBounded, run_lem}
use cuddly_train.Ethernet.Accept.{IsAccepted, accept_lem}

-- The world counts the connections that came.
abbrev library : EthernetLibrary ℕ ℕ
library = record {
  loop = λ (w : ℕ). w;
  yield = λ (w : ℕ). w;
  link_off = λ (w : ℕ). (false, w);
  local_ip = λ (w : ℕ). (167772161, w);
  inaddr_none = 0xFFFFFFFF;
  begin_dhcp = λ (w : ℕ). (true, w);
  begin_static = λ ip subnet gateway (w : ℕ). (true, w);
  begin_with_reuse = λ port (w : ℕ). (true, w);
  server_on = λ (w : ℕ). (true, w);
  server_accept = λ (w : ℕ). (w + 1, w + 1);
  no_client = 0;
  client_on = λ client (w : ℕ). (not (client == 0), w);
  set_connection_timeout_enabled = λ b client (w : ℕ). w;
  set_no_delay = λ b client (w : ℕ). (false, w);
  available = λ client (w : ℕ). (negsuc 0, w);
  read = λ client n (w : ℕ). (pos 0, [], w);
  write = λ client bytes (w : ℕ). (length bytes, w);
  flush = λ client (w : ℕ). w;
  close = λ client (w : ℕ). w;
  abort = λ client (w : ℕ). w;
  serial_on = λ (w : ℕ). (true, w);
  serial_write = λ bytes (w : ℕ). w;
}

-- A listening server that has accepted one connection.
abbrev slot : Slot ℕ
slot = record { transport = 7; generation = 1; active = true; retired = false }

abbrev other_slot : Slot ℕ
other_slot = record { transport = 0; generation = 0; active = false; retired = false }

abbrev server : Server ℕ
server = record {
  slots = slot ∷ other_slot ∷ [];
  config = default_config library;
  pending_client = 0;
  configured = true;
  interface_begin_attempted = true;
  interface_started = true;
  listening = true;
}

abbrev handle : ConnectionHandle
handle = record { slot = 0; generation = 1 }

server-IsBounded : IsBounded library server
server-IsBounded zero = omega arith
server-IsBounded (suc zero) = omega arith
server-IsBounded (suc (suc i)) = omega arith

abbrev ending : List (Call ℕ)
ending = accept_call ∷ abort_call handle ∷ []

abbrev reusing : List (Call ℕ)
reusing = progress_call ∷ accept_call ∷ []

reached : lookup library handle server ≡ some slot
unfolding lookup
reached = refl

-- The slot is accepted again, and the old handle does not reach it.
reused :
    lookup library
      (record { slot = 0; generation = 2 })
      (run library reusing (run library ending (server, 7))).0
    ≡ some (record { transport = 9; generation = 2; active = true; retired = false })
unfolding lookup accept has_pending_connection cuddly_train.Ethernet.Listener.progress
    cuddly_train.Ethernet.Listener.abort
reused = refl

run_lem_example :
    let st = run library ending (server, 7) in
    (lookup library handle st.0 ≡ some slot)
    ⊎ ((lookup library handle st.0 ≡ none)
        × (lookup library handle (run library reusing st).0 ≡ none))
run_lem_example = run_lem library ending reusing handle server 7 slot server-IsBounded reached

accept_lem_example :
    let (waiting, s₁, w₁) = has_pending_connection library (server, 7) in
    let (handle, s', w') = accept library (server, 7) in
    ((waiting ≡ false) × (handle ≡ invalid_connection) × (s'.slots ≡ server.slots))
    ⊎ ((waiting ≡ true) × IsAccepted library s₁.pending_client handle server s')
accept_lem_example = accept_lem library server 7 refl

-- The counter of the board, 5 microseconds before it wraps and 5 after.
abbrev micros : ℕ → ℕ × ℕ
micros w = (w % 2 ^ 32, w)

micros-IsCounter : IsCounter micros (λ w. w)
micros-IsCounter = record { reads = λ w. refl }

elapsed-board_clock_example :
    ((4294967291 + 10 < 2 ^ 32) × (elapsed 5 4294967291 ≡ 10))
    ⊎ ((2 ^ 32 ≤ 4294967291 + 10) × (elapsed 5 4294967291 ≡ 10 + (2 ^ 64 - 2 ^ 32)))
unfolding board_clock
elapsed-board_clock_example =
    elapsed-board_clock micros micros (λ w. w) micros-IsCounter 4294967291 4294967301 10
      (omega arith) (omega arith)
