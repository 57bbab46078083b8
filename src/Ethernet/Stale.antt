-- ===== src/Ethernet/Stale.antt =====
-- Handles of src/platform/qnethernet/QNEthernetNetworkServer.cpp that outlive their connection.
use cuddly_train.Base.{
  ℕ, ◌^◌, ◌<◌, ◌≡◌, ◌⊎◌, inl, inr, ◌∙◌, refl, ap, true, false, List, [], ◌∷◌, some, none, arith,
  ◌==◌, length, get_or-set, length-set, Bool-cases,
}
use cuddly_train.Wire.{ConnectionHandle}
use cuddly_train.Ethernet.{EthernetLibrary, Server, Slot, invalidate, is_free}
use cuddly_train.Ethernet.Listener.{slot_at, occupy, lookup}
use cuddly_train.Ethernet.Handles.{
  get_or-set_ne, Change, unchanged, taken, ended, apply, Allowed, Changes, Call, call, run,
  call-Changes,
}

-- A slot that has left the generation behind, for good.
abbrev pub IsPast : {C : Type 0} → ℕ → Slot C → Type 0
IsPast generation slot = (slot.retired ≡ true) ⊎ (generation < slot.generation)

module _ {C W : Type 0} (lib : EthernetLibrary C W) where
  abbrev pub Spent : ConnectionHandle → Server C → Type 0
  Spent handle s = IsPast handle.generation (slot_at lib s.slots handle.slot)

  -- Generations are 32 bits wide.
  abbrev pub IsBounded : Server C → Type 0
  IsBounded s = (i : ℕ) → (slot_at lib s.slots i).generation < 2 ^ 32

  -- What one slot sees of a change: nothing, or that it is taken or ended.
  slot-seen :
      (c : Change C) (slots : List (Slot C)) (i : ℕ)
      → Allowed lib c slots
      → let before = slot_at lib slots i in
        let after = slot_at lib (apply lib c slots) i in
        (after ≡ before)
        ⊎ ((client : C) × (is_free before ≡ true) × (after ≡ occupy lib client before))
        ⊎ ((before.active ≡ true) × (before.retired ≡ false) × (after ≡ invalidate before))
  slot-seen unchanged slots i a = inl refl
  slot-seen (taken j client) slots i (room, free) = elim (Bool-cases (i == j)) [
    | inl e ↦
        let same : i ≡ j = ground (arith, e) in
        inr (inl (client, rw same free, rw same (get_or-set slots j _ _ room)))
    | inr e ↦ inl (get_or-set_ne slots i j _ _ (λ h. ground (arith, e, h)))
  ]
  slot-seen (ended j) slots i (room, active, kept) = elim (Bool-cases (i == j)) [
    | inl e ↦
        let same : i ≡ j = ground (arith, e) in
        inr (inr (rw same active, rw same kept, rw same (get_or-set slots j _ _ room)))
    | inr e ↦ inl (get_or-set_ne slots i j _ _ (λ h. ground (arith, e, h)))
  ]

  taken-IsPast :
      (g : ℕ) (client : C) (slot : Slot C)
      → is_free slot ≡ true
      → IsPast g slot
      → IsPast g (occupy lib client slot)
  taken-IsPast g client slot f p = ground (arith, f, p)

  ended-IsPast :
      (g : ℕ) (slot : Slot C)
      → slot.generation < 2 ^ 32
      → slot.retired ≡ false
      → IsPast g slot
      → IsPast g (invalidate slot)
  unfolding invalidate
  ended-IsPast g slot b k p = ground (arith, b, k, p)

  left-IsPast :
      (slot : Slot C) → slot.generation < 2 ^ 32 → IsPast slot.generation (invalidate slot)
  unfolding invalidate
  left-IsPast slot b = ground (arith, b)

  invalidate-bound :
      (slot : Slot C) → slot.generation < 2 ^ 32 → (invalidate slot).generation < 2 ^ 32
  unfolding invalidate
  invalidate-bound slot b = ground (arith, b)

  Change-Spent :
      (handle : ConnectionHandle) (s s' : Server C)
      → IsBounded s
      → Changes lib s s'
      → Spent handle s
      → Spent handle s'
  Change-Spent handle s s' b (c, a, e) p =
      let here = slot_at lib s.slots handle.slot in
      rw e (elim (slot-seen c s.slots handle.slot a) [
        | inl same ↦ rw same p
        | inr (inl (client, free, now)) ↦ rw now (taken-IsPast handle.generation client here free p)
        | inr (inr (_, kept, now)) ↦
            rw now (ended-IsPast handle.generation here (b handle.slot) kept p)
      ])

  Change-IsBounded : (s s' : Server C) → IsBounded s → Changes lib s s' → IsBounded s'
  Change-IsBounded s s' b (c, a, e) i =
      let here = slot_at lib s.slots i in
      rw e (elim (slot-seen c s.slots i a) [
        | inl same ↦ rw same (b i)
        | inr (inl (client, free, now)) ↦ rw now (ground (arith, b i))
        | inr (inr (_, kept, now)) ↦ rw now (invalidate-bound here (b i))
      ])

  lookup-some :
      (handle : ConnectionHandle) (s : Server C) (slot : Slot C)
      → lookup lib handle s ≡ some slot
      → let there = slot_at lib s.slots handle.slot in
        (there ≡ slot)
        × (slot.active ≡ true)
        × (slot.retired ≡ false)
        × (slot.generation ≡ handle.generation)
  unfolding lookup
  lookup-some handle s slot h = ground (arith, h)

  lookup-same :
      (handle : ConnectionHandle) (s s' : Server C)
      → length s'.slots ≡ length s.slots
      → slot_at lib s'.slots handle.slot ≡ slot_at lib s.slots handle.slot
      → lookup lib handle s' ≡ lookup lib handle s
  unfolding lookup
  lookup-same handle s s' l e = rw (l, e) refl

  pub Spent-lookup :
      (handle : ConnectionHandle) (s : Server C) → Spent handle s → lookup lib handle s ≡ none
  unfolding lookup
  Spent-lookup handle s p = ground (arith, p)

  Change-length : (s s' : Server C) → Changes lib s s' → length s'.slots ≡ length s.slots
  Change-length s s' (c, a, e) = rw e (go c)
    where
      go : (c : Change C) → length (apply lib c s.slots) ≡ length s.slots
      go unchanged = refl
      go (taken i client) = length-set s.slots i _
      go (ended i) = length-set s.slots i _

  Change-lookup :
      (handle : ConnectionHandle) (s s' : Server C) (slot : Slot C)
      → IsBounded s
      → Changes lib s s'
      → lookup lib handle s ≡ some slot
      → (lookup lib handle s' ≡ some slot) ⊎ Spent handle s'
  Change-lookup handle s s' slot b (c, a, e) h =
      let (there, active, kept, generation) = lookup-some handle s slot h in
      elim (slot-seen c s.slots handle.slot a) [
        | inl same ↦ inl (
            lookup-same handle s s' (Change-length s s' (c, a, e))
              (ap (λ xs. slot_at lib xs handle.slot) e ∙ same)
            ∙ h)
        | inr (inl (client, free, now)) ↦ absurd (ground (arith, free, there, active))
        | inr (inr (_, _, now)) ↦
            inr (rw (e, now) (ground (arith, left-IsPast slot, there, b handle.slot, generation)))
      ]

  run-Spent :
      (calls : List (Call W)) (handle : ConnectionHandle) (s : Server C) (w : W)
      → IsBounded s
      → Spent handle s
      → Spent handle (run lib calls (s, w)).0
  run-Spent [] handle s w b p = p
  run-Spent (c ∷ cs) handle s w b p =
      let (s', w') = call lib c (s, w) in
      let ch = call-Changes lib c s w in
      run-Spent cs handle s' w' (Change-IsBounded s s' b ch) (Change-Spent handle s s' b ch p)

  run-IsBounded :
      (calls : List (Call W)) (s : Server C) (w : W)
      → IsBounded s
      → IsBounded (run lib calls (s, w)).0
  run-IsBounded [] s w b = b
  run-IsBounded (c ∷ cs) s w b =
      let (s', w') = call lib c (s, w) in
      run-IsBounded cs s' w' (Change-IsBounded s s' b (call-Changes lib c s w))

  run-lookup :
      (calls : List (Call W)) (handle : ConnectionHandle) (s : Server C) (w : W) (slot : Slot C)
      → IsBounded s
      → lookup lib handle s ≡ some slot
      → let s' = (run lib calls (s, w)).0 in (lookup lib handle s' ≡ some slot) ⊎ Spent handle s'
  run-lookup [] handle s w slot b h = inl h
  run-lookup (c ∷ cs) handle s w slot b h =
      let (s', w') = call lib c (s, w) in
      let ch = call-Changes lib c s w in
      let b' = Change-IsBounded s s' b ch in
      elim (Change-lookup handle s s' slot b ch h) [
        | inl h' ↦ run-lookup cs handle s' w' slot b' h'
        | inr p ↦ inr (run-Spent cs handle s' w' b' p)
      ]

  -- While every generation is a 32-bit number, a handle that reaches a connection reaches, behind any
  -- sequence of calls, either the same slot with the same connection and generation, or nothing; and
  -- then it reaches nothing behind any further calls, whatever connections are accepted in its slot.
  pub run_lem :
      (before after : List (Call W)) (handle : ConnectionHandle) (s : Server C) (w : W)
      (slot : Slot C)
      → IsBounded s
      → lookup lib handle s ≡ some slot
      → let st = run lib before (s, w) in
        (lookup lib handle st.0 ≡ some slot)
        ⊎ ((lookup lib handle st.0 ≡ none) × (lookup lib handle (run lib after st).0 ≡ none))
  run_lem before after handle s w slot b h =
      let (s', w') = run lib before (s, w) in
      elim (run-lookup before handle s w slot b h) [
        | inl e ↦ inl e
        | inr p ↦ inr (
          Spent-lookup handle s' p,
          Spent-lookup handle _ (run-Spent after handle s' w' (run-IsBounded before s w b) p),
        )
      ]
