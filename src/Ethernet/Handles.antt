-- ===== src/Ethernet/Handles.antt =====
-- The handles of src/platform/qnethernet/QNEthernetNetworkServer.cpp: what the calls do to the slots.
use cuddly_train.Base.{
  ℕ, zero, suc, ◌<◌, ◌≡◌, ◌≢◌, ◌⊎◌, inl, inr, ◌∙◌, refl, ap, true, false, List, [], ◌∷◌, arith,
  length, set, get_or, Bool-cases, Option-cases,
}
use cuddly_train.Wire.{ConnectionHandle, invalid_connection}
use cuddly_train.Protocol.{NetworkConfig}
use cuddly_train.Ethernet.{EthernetLibrary, Server, Slot, is_free, first_reusable_slot, invalidate}
use cuddly_train.Ethernet.Listener.{
  slot_at, occupy, configure, progress, begin_interface_if_needed, begin, has_pending_connection,
  accept, accept_at, lookup, cache_pending_connection, end_with, close, abort,
}

-- A write elsewhere is not seen.
pub get_or-set_ne :
    {A : Type 0} (xs : List A) (i j : ℕ) (v d : A) → i ≢ j → get_or (set xs j v) i d ≡ get_or xs i d
get_or-set_ne [] i j v d h = refl
get_or-set_ne (x ∷ xs) zero zero v d h = absurd (h refl)
get_or-set_ne (x ∷ xs) zero (suc j) v d h = refl
get_or-set_ne (x ∷ xs) (suc i) zero v d h = refl
get_or-set_ne (x ∷ xs) (suc i) (suc j) v d h = get_or-set_ne xs i j v d (λ e. h (ap suc e))

-- What a call does to the slots.
pub data Change (C : Type 0) : Type 0 where
  unchanged : Change C
  taken : ℕ → C → Change C
  ended : ℕ → Change C

-- The calls of the board and of the session. `outside` is whatever else happens to the world, the
-- reads and writes over a transport among it.
pub data Call (W : Type 0) : Type 0 where
  configure_call : NetworkConfig → Call W
  progress_call : Call W
  begin_call : ℕ → Call W
  pending_call : Call W
  accept_call : Call W
  close_call : ConnectionHandle → Call W
  abort_call : ConnectionHandle → Call W
  outside : (W → W) → Call W

module _ {C W : Type 0} (lib : EthernetLibrary C W) where
  abbrev pub call : Call W → Server C × W → Server C × W
  call (configure_call config) (s, w) = (configure lib config s, w)
  call progress_call (s, w) = progress lib (s, w)
  call (begin_call port) (s, w) = let (_, s', w') = begin lib port (s, w) in (s', w')
  call pending_call (s, w) = let (_, s', w') = has_pending_connection lib (s, w) in (s', w')
  call accept_call (s, w) = let (_, s', w') = accept lib (s, w) in (s', w')
  call (close_call handle) (s, w) = close lib handle (s, w)
  call (abort_call handle) (s, w) = abort lib handle (s, w)
  call (outside f) (s, w) = (s, f w)

  abbrev pub run : List (Call W) → Server C × W → Server C × W
  run [] st = st
  run (c ∷ cs) st = run cs (call c st)

  abbrev pub apply : Change C → List (Slot C) → List (Slot C)
  apply unchanged slots = slots
  apply (taken i client) slots = set slots i (occupy lib client (slot_at lib slots i))
  apply (ended i) slots = set slots i (invalidate (slot_at lib slots i))

  -- A slot is taken when it is free, and ended when it is active.
  abbrev pub Allowed : Change C → List (Slot C) → Type 0
  Allowed unchanged slots = Unit {0}
  Allowed (taken i client) slots = (i < length slots) × (is_free (slot_at lib slots i) ≡ true)
  Allowed (ended i) slots =
      (i < length slots)
      × ((slot_at lib slots i).active ≡ true)
      × ((slot_at lib slots i).retired ≡ false)

  abbrev pub Changes : Server C → Server C → Type 0
  Changes s s' = (c : Change C) × Allowed c s.slots × (s'.slots ≡ apply c s.slots)

  pub first_reusable-free :
      (slots : List (Slot C))
      → first_reusable_slot slots < length slots
      → is_free (slot_at lib slots (first_reusable_slot slots)) ≡ true
  unfolding first_reusable_slot
  first_reusable-free [] h = absurd (omega arith)
  first_reusable-free (slot ∷ slots) h = elim (Bool-cases (is_free slot)) [
    | inl e ↦ rw (e, first_reusable_slot) e
    | inr e ↦ rw (e, first_reusable_slot) (first_reusable-free slots (ground (arith, e, h)))
  ]

  pub has_pending-slots :
      (s : Server C) (w : W) → (has_pending_connection lib (s, w)).1.slots ≡ s.slots
  unfolding has_pending_connection cache_pending_connection
  has_pending-slots s w = ground arith

  has_pending-free :
      (s : Server C) (w : W)
      → (has_pending_connection lib (s, w)).0 ≡ true
      → first_reusable_slot s.slots < length s.slots
  unfolding has_pending_connection
  has_pending-free s w h = ground (arith, h)

  -- A connection is accepted exactly if one is pending, and then in the first free slot.
  pub accept-cases :
      (s : Server C) (w : W)
      → let (waiting, s', w') = has_pending_connection lib (s, w) in
        let i = first_reusable_slot s.slots in
        ((waiting ≡ false) × (accept lib (s, w) ≡ (invalid_connection, s', w')))
        ⊎ ((waiting ≡ true)
            × (i < length s.slots)
            × (is_free (slot_at lib s.slots i) ≡ true)
            × (accept lib (s, w) ≡ accept_at lib i (s', w')))
  unfolding accept
  accept-cases s w =
      let same = has_pending-slots s w in
      elim (Bool-cases (has_pending_connection lib (s, w)).0) [
        | inr e ↦ inl (e, ground (arith, e))
        | inl e ↦
            let room = has_pending-free s w e in
            inr (e, room, first_reusable-free s.slots room, ground (arith, e, same, room))
      ]

  accept-Changes : (s : Server C) (w : W) → Changes s (accept lib (s, w)).1
  accept-Changes s w =
      let (waiting, s', w') = has_pending_connection lib (s, w) in
      let same : s'.slots ≡ s.slots = has_pending-slots s w in
      let i = first_reusable_slot s.slots in
      elim (accept-cases s w) [
        | inl (_, e) ↦ (unchanged, tt, ap (λ out. out.1.slots) e ∙ same)
        | inr (_, room, free, e) ↦ (
          taken i s'.pending_client,
          (room, free),
          ap (λ out. out.1.slots) e
              ∙ ap (λ xs. set xs i (occupy lib s'.pending_client (slot_at lib xs i))) same,
        )
      ]

  end-Changes :
      (finish : C → W → W) (handle : ConnectionHandle) (s : Server C) (w : W)
      → Changes s (end_with lib finish handle (lookup lib handle s) (s, w)).0
  unfolding lookup
  end-Changes finish handle s w = elim (Option-cases (lookup lib handle s)) [
    | inl e ↦ (unchanged, tt, ground (arith, e))
    | inr (slot, e) ↦ (ended handle.slot, ground (arith, e), ground (arith, e))
  ]

  same-Changes : (s s' : Server C) → s'.slots ≡ s.slots → Changes s s'
  same-Changes s s' e = (unchanged, tt, e)

  pub call-Changes : (c : Call W) (s : Server C) (w : W) → Changes s (call c (s, w)).0
  unfolding configure progress begin_interface_if_needed begin close abort
  call-Changes (configure_call config) s w = same-Changes s (configure lib config s) refl
  call-Changes progress_call s w = same-Changes s (progress lib (s, w)).0 (ground arith)
  call-Changes (begin_call port) s w = same-Changes s (begin lib port (s, w)).1 (ground arith)
  call-Changes pending_call s w =
      same-Changes s (has_pending_connection lib (s, w)).1 (has_pending-slots s w)
  call-Changes accept_call s w = accept-Changes s w
  call-Changes (close_call handle) s w = end-Changes _ handle s w
  call-Changes (abort_call handle) s w = end-Changes lib.abort handle s w
  call-Changes (outside f) s w = same-Changes s s refl
