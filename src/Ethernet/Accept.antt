-- ===== src/Ethernet/Accept.antt =====
-- `accept` of src/platform/qnethernet/QNEthernetNetworkServer.cpp.
use cuddly_train.Base.{
  ℕ, ◌%◌, ◌^◌, ◌<◌, ◌≡◌, ◌≢◌, ◌⊎◌, inl, inr, ◌∙◌, sym, refl, ap, true, false, some, none, arith,
  ◌==◌, length, set, get_or-set, length-set, Bool-cases,
}
use cuddly_train.Wire.{ConnectionHandle, invalid_connection, is_valid_connection_handle}
use cuddly_train.Ethernet.{
  EthernetLibrary, Server, Slot, is_free, connection_slot_count, first_reusable_slot,
}
use cuddly_train.Ethernet.Listener.{
  slot_at, occupy, lookup, empty_slot, has_pending_connection, accept,
}
use cuddly_train.Ethernet.Handles.{get_or-set_ne, accept-cases, has_pending-slots}

module _ {C W : Type 0} (lib : EthernetLibrary C W) where
  -- `handle` is new, and reaches the connection of `client`; all others reach what they did.
  pub record IsAccepted (client : C) (handle : ConnectionHandle) (s s' : Server C) : Type 0 where
    pub valid : is_valid_connection_handle handle ≡ true
    pub new : lookup lib handle s ≡ none
    pub reached : (slot : Slot C) × (lookup lib handle s' ≡ some slot) × (slot.transport ≡ client)
    pub others : (h : ConnectionHandle) → h ≢ handle → lookup lib h s' ≡ lookup lib h s

  free-lookup :
      (h : ConnectionHandle) (s : Server C)
      → is_free (slot_at lib s.slots h.slot) ≡ true
      → lookup lib h s ≡ none
  unfolding lookup
  free-lookup h s f = ground (arith, f)

  lookup-reaches :
      (h : ConnectionHandle) (s : Server C) (slot : Slot C)
      → is_valid_connection_handle h ≡ true
      → h.slot < length s.slots
      → slot_at lib s.slots h.slot ≡ slot
      → slot.active ≡ true
      → slot.retired ≡ false
      → slot.generation ≡ h.generation
      → lookup lib h s ≡ some slot
  unfolding lookup
  lookup-reaches h s slot v l e a k g = rw e (ground (arith, v, l, a, k, g))

  lookup-misses :
      (h : ConnectionHandle) (s : Server C) (slot : Slot C)
      → slot_at lib s.slots h.slot ≡ slot
      → slot.generation ≢ h.generation
      → lookup lib h s ≡ none
  unfolding lookup
  lookup-misses h s slot e g = rw e (ground (arith, g))

  lookup-elsewhere :
      (h : ConnectionHandle) (s s' : Server C) (i : ℕ) (slot : Slot C)
      → s'.slots ≡ set s.slots i slot
      → h.slot ≢ i
      → lookup lib h s' ≡ lookup lib h s
  unfolding lookup
  lookup-elsewhere h s s' i slot e n =
      rw (e, get_or-set_ne s.slots h.slot i slot (empty_slot lib) n, length-set s.slots i slot) refl

  -- The handle of a slot's next connection.
  abbrev handle_of : C → ℕ → Slot C → ConnectionHandle
  handle_of client i slot = record { slot = i; generation = (occupy lib client slot).generation }

  taken-others :
      (client : C) (i : ℕ) (s s' : Server C) (h : ConnectionHandle)
      → i < length s.slots
      → is_free (slot_at lib s.slots i) ≡ true
      → s'.slots ≡ set s.slots i (occupy lib client (slot_at lib s.slots i))
      → h ≢ handle_of client i (slot_at lib s.slots i)
      → lookup lib h s' ≡ lookup lib h s
  taken-others client i s s' h room free e differ =
      let slot = occupy lib client (slot_at lib s.slots i) in
      elim (Bool-cases (h.slot == i)) [
        | inl here ↦
            let same : h.slot ≡ i = ground (arith, here) in
            let now : slot_at lib s'.slots h.slot ≡ slot =
              rw (same, e) (get_or-set s.slots i slot (empty_slot lib) room) in
            lookup-misses h s' slot now (λ g. differ (handle-path h i _ same g))
            ∙ sym (free-lookup h s (rw same free))
        | inr other ↦ lookup-elsewhere h s s' i slot e (λ q. ground (arith, q, other))
      ]
    where
      handle-path :
          (h : ConnectionHandle) (i g : ℕ)
          → h.slot ≡ i
          → g ≡ h.generation
          → h ≡ record { slot = i; generation = g }
      handle-path h i g p q = cc

  taken-IsAccepted :
      (client : C) (i : ℕ) (s s' : Server C)
      → length s.slots ≡ connection_slot_count
      → i < length s.slots
      → is_free (slot_at lib s.slots i) ≡ true
      → s'.slots ≡ set s.slots i (occupy lib client (slot_at lib s.slots i))
      → IsAccepted client (handle_of client i (slot_at lib s.slots i)) s s'
  taken-IsAccepted client i s s' two room free e =
      let slot = occupy lib client (slot_at lib s.slots i) in
      let handle = handle_of client i (slot_at lib s.slots i) in
      let now : slot_at lib s'.slots i ≡ slot =
        ap (λ xs. slot_at lib xs i) e ∙ get_or-set s.slots i slot _ room in
      let long : length s'.slots ≡ length s.slots = ap length e ∙ length-set s.slots i slot in
      let valid : is_valid_connection_handle handle ≡ true = ground (arith, two, room) in
      record {
        valid = valid;
        new = free-lookup handle s free;
        reached = (
          slot,
          lookup-reaches handle s' slot valid (omega (arith, long, room)) now refl
              (ground (arith, free)) refl,
          refl,
        );
        others = λ h d. taken-others client i s s' h room free e d;
      }

  -- A server of two slots: unless `hasPendingConnection` reports a connection, nothing is accepted
  -- and no slot changes. If it reports one, the handle is valid and new, it reaches exactly that
  -- connection, and every other handle reaches what it did before.
  pub accept_lem :
      (s : Server C) (w : W)
      → length s.slots ≡ connection_slot_count
      → let (waiting, s₁, w₁) = has_pending_connection lib (s, w) in
        let (handle, s', w') = accept lib (s, w) in
        ((waiting ≡ false) × (handle ≡ invalid_connection) × (s'.slots ≡ s.slots))
        ⊎ ((waiting ≡ true) × IsAccepted s₁.pending_client handle s s')
  accept_lem s w two =
      let (waiting, s₁, w₁) = has_pending_connection lib (s, w) in
      let same : s₁.slots ≡ s.slots = has_pending-slots lib s w in
      let i = first_reusable_slot s.slots in
      elim (accept-cases lib s w) [
        | inl (q, e) ↦ inl (q, rw e refl, rw e same)
        | inr (q, room, free, e) ↦
            let small : i % 2 ^ 8 ≡ i = omega (arith, room, two) in
            inr
              (q, rw (e, small, same) (taken-IsAccepted s₁.pending_client i s _ two room free refl))
      ]
