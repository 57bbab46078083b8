-- ===== src/Framer/Lines.antt =====
-- What the stream semantics means for whole lines, and what the client of the framer receives.
use mathlib.Core.List.{append_assoc, append-nil}
use native.Mathlib.Decide.{ℕ_discrete}
use cuddly_train.Base.{
  ℕ, ◌+◌, ◌≤◌, ◌<◌, ◌≡◌, ◌∙◌, refl, ap, true, false, List, [], ◌∷◌, ◌++◌, some, arith, length,
  length-append, set, take, drop, take-append_le, ◌==◌, if◌then◌else◌,
}
use cuddly_train.Counters.{Counters, bump}
use cuddly_train.Framer.{Framer, has_line, acquire_line, release_line, promote_pending_if_possible}
use cuddly_train.Framer.Invariant.{IsValid}
use cuddly_train.Framer.Stream.{Stream, feed, feed_all, view}

-- No byte of the list is a newline.
abbrev pub IsOneLine : List ℕ → Type 0
IsOneLine [] = Unit {0}
IsOneLine (b ∷ bs) = ((b == b'\n') ≡ false) × IsOneLine bs

feed_all-append :
    (xs ys : List ℕ) (s : Stream) → feed_all (xs ++ ys) s ≡ feed_all ys (feed_all xs s)
unfolding feed_all
feed_all-append [] ys s = refl
feed_all-append (x ∷ xs) ys s = feed_all-append xs ys (feed x s)

feed-grow :
    (b : ℕ) (s : Stream)
    → (b == b'\n') ≡ false
    → s.skipping ≡ false
    → length s.partial < 1023
    → feed b s ≡ record s { partial = s.partial ++ (b ∷ []) }
unfolding feed
feed-grow b s h k l = ground arith

feed_all-grow :
    (bs : List ℕ) (s : Stream)
    → IsOneLine bs
    → s.skipping ≡ false
    → length s.partial + length bs ≤ 1023
    → feed_all bs s ≡ record s { partial = s.partial ++ bs }
unfolding feed_all
feed_all-grow [] s h k l = ground (arith, append-nil s.partial)
feed_all-grow (b ∷ bs) s h k l = rw (feed-grow b s h.0 k (omega arith)) (
    feed_all-grow bs (record s { partial = s.partial ++ (b ∷ []) }) h.1 k
      (omega (arith, length-append s.partial (b ∷ [])))
    ∙ ap (λ p. record s { partial = p }) (append_assoc s.partial (b ∷ []) bs))

feed-skip : (b : ℕ) (s : Stream) → (b == b'\n') ≡ false → s.skipping ≡ true → feed b s ≡ s
unfolding feed
feed-skip b s h k = ground arith

feed_all-skip : (bs : List ℕ) (s : Stream) → IsOneLine bs → s.skipping ≡ true → feed_all bs s ≡ s
unfolding feed_all
feed_all-skip [] s h k = refl
feed_all-skip (b ∷ bs) s h k = rw (feed-skip b s h.0 k) (feed_all-skip bs s h.1 k)

-- The state after the byte that does not fit.
abbrev overflow : Stream → Stream
overflow s = record s { partial = []; skipping = true; oversized = bump s.oversized }

feed-overflow :
    (b : ℕ) (s : Stream)
    → (b == b'\n') ≡ false
    → s.skipping ≡ false
    → length s.partial ≡ 1023
    → feed b s ≡ overflow s
unfolding feed
feed-overflow b s h k l = ground arith

feed_all-overflow :
    (bs : List ℕ) (s : Stream)
    → IsOneLine bs
    → s.skipping ≡ false
    → length s.partial ≤ 1023
    → 1023 < length s.partial + length bs
    → feed_all bs s ≡ overflow s
unfolding feed_all
feed_all-overflow [] s h k l m = absurd (omega arith)
feed_all-overflow (b ∷ bs) s h k l m = elim (ℕ_discrete (length s.partial) 1023) [
  | yes full ↦ rw (feed-overflow b s h.0 k full) (feed_all-skip bs (overflow s) h.1 refl)
  | no room ↦ rw (feed-grow b s h.0 k (omega arith)) (
      feed_all-overflow bs (record s { partial = s.partial ++ (b ∷ []) }) h.1 k
        (omega (arith, length-append s.partial (b ∷ [])))
        (omega (arith, length-append s.partial (b ∷ []))))
]

-- The wire format of lines.
unfoldable pub encode : List (List ℕ) → List ℕ
encode [] = []
encode (l ∷ ls) = l ++ (b'\n' ∷ encode ls)

-- Each line is free of newlines and at most `max_payload_bytes` long.
abbrev pub AreLines : List (List ℕ) → Type 0
AreLines [] = Unit {0}
AreLines (l ∷ ls) = (IsOneLine l × (length l ≤ 1023)) × AreLines ls

feed-newline :
    (s : Stream)
    → s.skipping ≡ false
    → feed b'\n' s ≡ record s { lines = s.lines ++ (s.partial ∷ []); partial = [] }
unfolding feed
feed-newline s k = ground arith

-- Between two lines, the stream of the encoded lines yields exactly these lines, in their order,
-- after those that were complete before, and leaves the rest of the stream state as it was.
pub feed_all-encode :
    (ls : List (List ℕ)) (s : Stream)
    → AreLines ls
    → s.skipping ≡ false
    → s.partial ≡ []
    → feed_all (encode ls) s ≡ record s { lines = s.lines ++ ls; partial = [] }
unfolding encode feed_all
feed_all-encode [] s h k p = ground (arith, append-nil s.lines)
feed_all-encode (l ∷ ls) s h k p =
    feed_all-append l (b'\n' ∷ encode ls) s
    ∙ ap (feed_all (b'\n' ∷ encode ls)) (feed_all-grow l s h.0.0 k (omega (arith, ap length p)))
    ∙ ap (feed_all (encode ls)) (feed-newline (record s { partial = s.partial ++ l }) k)
    ∙ feed_all-encode ls (record s { lines = s.lines ++ ((s.partial ++ l) ∷ []); partial = [] }) h.1
        k refl
    ∙ rw p (ap (λ t. record s { lines = t; partial = [] }) (append_assoc s.lines (l ∷ []) ls))

-- A line of more than `max_payload_bytes` bytes is dropped whole: it is counted once as oversized,
-- no part of it becomes a line, and the next line starts afresh behind its newline.
pub feed_all-oversized :
    (l : List ℕ) (s : Stream)
    → IsOneLine l
    → 1023 < length l
    → s.skipping ≡ false
    → s.partial ≡ []
    → feed_all (l ++ (b'\n' ∷ [])) s ≡ record s { oversized = bump s.oversized; partial = [] }
feed_all-oversized l s h m k p =
    feed_all-append l (b'\n' ∷ []) s
    ∙ rw (feed_all-overflow l s h k (omega (arith, ap length p)) (omega arith))
        (unfold feed_all feed in ground arith)

-- What the client of a valid framer gets when a line is there: the oldest line of the view, which stays
-- in the view until it is released, and is then gone, while every other part of the view stays.
pub acquire-release :
    (f : Framer) (c : Counters)
    → IsValid f
    → has_line f ≡ true
    → let (line, held) = acquire_line f in
      (l : List ℕ) × (rest : List (List ℕ)) × (line ≡ some l)
      × ((view f c).lines ≡ l ∷ rest)
      × (view held c ≡ view f c)
      × (view (release_line held) c ≡ record (view f c) { lines = rest })
unfolding has_line acquire_line release_line promote_pending_if_possible
acquire-release f c v h = (
  take f.active_length f.active_line,
  (if f.pending_ready then take f.pending_length f.pending_line ∷ [] else []),
  ground arith,
  ground arith,
  ground arith,
  ground (
    arith,
    v.waiting_whole,
    take-append_le f.pending_length (f.pending_length + 1) f.pending_line
        (drop (f.pending_length + 1) (set f.active_line 0 0)),
    v.pending_size,
  ),
)
