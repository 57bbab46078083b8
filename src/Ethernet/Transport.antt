-- ===== src/Ethernet/Transport.antt =====
-- src/platform/qnethernet/QNEthernetTransport.cpp: a transport, which is its client.
use cuddly_train.Base.{
  ℕ, min, Bool, true, false, not, List, [], Option, some, none, ◌==◌, if◌then◌else◌, length, take,
}
use cuddly_train.Wire.{
  LineView, TransportConnectionState, is_open, bytes_available, closed, link_down,
}
use cuddly_train.Ethernet.{EthernetLibrary, positive}

module _ {C W : Type 0} (lib : EthernetLibrary C W) where
  -- A buffer is its capacity, and `none` for a null pointer.
  unfoldable pub read_some : C → Option ℕ → W → List ℕ × W
  read_some client none w = ([], w)
  read_some client (some capacity) w =
      let (down, w₁) = lib.link_off w in
      let (available, w₂) = lib.available client w₁ in
      let (count, bytes, w₃) = lib.read client (min capacity (positive available)) w₂ in
      if capacity == 0
      then ([], w)
      else if down
      then ([], w₁)
      else if positive available == 0
      then ([], w₂)
      else (take (positive count) bytes, w₃)

  unfoldable pub write_some : C → LineView → W → ℕ × W
  write_some client none w = (0, w)
  write_some client (some bytes) w =
      let (down, w₁) = lib.link_off w in
      let (on, w₂) = lib.client_on client w₁ in
      if length bytes == 0
      then (0, w)
      else if down
      then (0, w₁)
      else if not on
      then (0, w₂)
      else lib.write client bytes w₂

  unfoldable pub connection_state : C → W → TransportConnectionState × W
  connection_state client w =
      let (down, w₁) = lib.link_off w in
      let (available, w₂) = lib.available client w₁ in
      let (on, w₃) = lib.client_on client w₂ in
      if down
      then (link_down, w₁)
      else if not (positive available == 0)
      then (bytes_available, w₂)
      else if on
      then (is_open, w₃)
      else (closed, w₃)

  abbrev pub is_closed : TransportConnectionState → Bool
  is_closed closed = true
  is_closed _ = false

  abbrev pub is_link_down : TransportConnectionState → Bool
  is_link_down link_down = true
  is_link_down _ = false

  unfoldable pub flush : C → W → Bool × W
  unfolding connection_state
  flush client w =
      let (down, w₁) = lib.link_off w in
      let (on, w₂) = lib.client_on client w₁ in
      let (state, w₃) = connection_state client (lib.flush client w₂) in
      let (state', w₄) = connection_state client w₃ in
      if down
      then (false, w₁)
      else if not on
      then (false, w₂)
      else if is_closed state
      then (false, w₃)
      else (not (is_link_down state'), w₄)
