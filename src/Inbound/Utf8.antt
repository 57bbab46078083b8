-- ===== src/Inbound/Utf8.antt =====
-- src/core/InboundParser.h: `isValidUtf8`, and UTF-8 as it is defined.
pub mod Reference
pub mod Sequences
pub mod Exact
use cuddly_train.Base.{
  ℕ, zero, suc, ◌+◌, ◌-◌, ◌/◌, ◌%◌, ◌≤◌, ◌<◌, ◌≡◌, refl, Bool, true, false, not, ◌&&◌, ◌||◌, List,
  [], ◌∷◌, ◌++◌, Option, some, none, arith, ◌==◌, ltb, leb, if◌then◌else◌, length, get_or,
}

abbrev pub in_range : ℕ → ℕ → ℕ → Bool
in_range value low high = leb low value && leb value high

abbrev pub is_continuation : ℕ → Bool
is_continuation byte = in_range byte 0x80 0xBF

-- One round of the loop at the byte `c`, with `cs` behind it: how many further bytes its sequence has,
-- or `none` where the function returns `false`. The tests from `c == 0xF0` on come first.
abbrev pub long_sequence_at : ℕ → List ℕ → Option ℕ
long_sequence_at c cs =
    let d = get_or cs 0 0 in
    let e = get_or cs 1 0 in
    let f = get_or cs 2 0 in
    if c == 0xF0
    then if leb (length cs) 2
        || not (in_range d 0x90 0xBF)
        || not (is_continuation e)
        || not (is_continuation f)
      then none
      else some 3
    else if in_range c 0xF1 0xF3
    then if leb (length cs) 2
        || not (is_continuation d)
        || not (is_continuation e)
        || not (is_continuation f)
      then none
      else some 3
    else if c == 0xF4
    then if leb (length cs) 2
        || not (in_range d 0x80 0x8F)
        || not (is_continuation e)
        || not (is_continuation f)
      then none
      else some 3
    else none

unfoldable pub sequence_at : ℕ → List ℕ → Option ℕ
sequence_at c cs =
    let d = get_or cs 0 0 in
    let e = get_or cs 1 0 in
    if leb c 0x7F
    then some 0
    else if in_range c 0xC2 0xDF
    then if leb (length cs) 0 || not (is_continuation d) then none else some 1
    else if c == 0xE0
    then if leb (length cs) 1 || not (in_range d 0xA0 0xBF) || not (is_continuation e)
      then none
      else some 2
    else if in_range c 0xE1 0xEC || in_range c 0xEE 0xEF
    then if leb (length cs) 1 || not (is_continuation d) || not (is_continuation e)
      then none
      else some 2
    else if c == 0xED
    then if leb (length cs) 1 || not (in_range d 0x80 0x9F) || not (is_continuation e)
      then none
      else some 2
    else long_sequence_at c cs

-- The loop, with the number of bytes that the last round has skipped and that still follow.
unfoldable pub valid_from : ℕ → List ℕ → Bool
unfolding sequence_at
valid_from skipped [] = true
valid_from (suc skipped) (c ∷ cs) = valid_from skipped cs
valid_from zero (c ∷ cs) = elim (sequence_at c cs) [ none ↦ false | some more ↦ valid_from more cs ]

unfoldable pub is_valid_utf8 : Option (List ℕ) → Bool
unfolding valid_from
is_valid_utf8 none = false
is_valid_utf8 (some data_bytes) = valid_from 0 data_bytes
