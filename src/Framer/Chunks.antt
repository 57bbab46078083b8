-- ===== src/Framer/Chunks.antt =====
-- What one call of `append` makes of a chunk of whole lines, and of one that holds too many.
use cuddly_train.Base.{
  ℕ, ◌+◌, ◌<◌, ◌≡◌, ◌∙◌, ap, sym, refl, true, false, List, [], ◌∷◌, ◌++◌, some, length, take,
  take-length, inl, inr, Bool-cases, if◌then◌else◌,
}
use cuddly_train.Counters.{Counters, bump}
use cuddly_train.Framer.{Framer, append_byte, append_from, append}
use cuddly_train.Framer.Invariant.{IsValid}
use cuddly_train.Framer.Stream.{view, feed_all, append_refines}
use cuddly_train.Framer.Lines.{IsOneLine, AreLines, encode, feed_all-encode, feed_all-oversized}

-- A call that takes all of its data does to the view what the data means.
append-whole :
    (bytes : List ℕ) (f : Framer) (c : Counters)
    → IsValid f
    → (append (some bytes) (f, c)).0 ≡ length bytes
    → let (_, f', c') = append (some bytes) (f, c) in view f' c' ≡ feed_all bytes (view f c)
append-whole bytes f c v e =
    let (_, _, seen, _) = append_refines bytes f c v in
    seen
    ∙ ap (λ k. feed_all (take k bytes) (view f c)) e
    ∙ ap (λ t. feed_all t (view f c)) (take-length bytes)

-- When `append`, from a valid framer between two lines, takes the whole of a chunk of lines, each of at most 1023 bytes
-- and with its newline, exactly these lines stand behind those that were complete before, in their
-- order, and nothing else of the view changes.
pub append-encode :
    (ls : List (List ℕ)) (f : Framer) (c : Counters)
    → IsValid f
    → f.discard_until_newline ≡ false
    → f.accumulator_length ≡ 0
    → AreLines ls
    → (append (some (encode ls)) (f, c)).0 ≡ length (encode ls)
    → let (_, f', c') = append (some (encode ls)) (f, c) in
      view f' c' ≡ record (view f c) { lines = (view f c).lines ++ ls; partial = [] }
append-encode ls f c v d a h e =
    append-whole (encode ls) f c v e
    ∙ feed_all-encode ls (view f c) h d (ap (λ n. take n f.pending_line) a)

-- When `append`, from a valid framer between two lines, takes the whole of a line of more than 1023 bytes and its
-- newline, the line is dropped whole: it is counted once as oversized, and the lines that the client
-- may see are those from before.
pub append-oversized :
    (l : List ℕ) (f : Framer) (c : Counters)
    → IsValid f
    → f.discard_until_newline ≡ false
    → f.accumulator_length ≡ 0
    → IsOneLine l
    → 1023 < length l
    → (append (some (l ++ (b'\n' ∷ []))) (f, c)).0 ≡ length (l ++ (b'\n' ∷ []))
    → let (_, f', c') = append (some (l ++ (b'\n' ∷ []))) (f, c) in
      view f' c' ≡ record (view f c) { oversized = bump c.oversized_lines; partial = [] }
append-oversized l f c v d a h m e =
    append-whole (l ++ (b'\n' ∷ [])) f c v e
    ∙ feed_all-oversized l (view f c) h m d (ap (λ n. take n f.pending_line) a)

append_from-full :
    (more : List ℕ) (n : ℕ) (f : Framer) (c : Counters)
    → f.pending_ready ≡ true
    → append_from more n (f, c) ≡ (n, f, c)
unfolding append_from
append_from-full [] n f c h = refl
append_from-full (b ∷ bs) n f c h =
    ap (λ p. if p then (n, f, c) else append_from bs (n + 1) (append_byte b (f, c))) h

append_from-more :
    (bytes more : List ℕ) (n : ℕ) (f : Framer) (c : Counters)
    → (append_from bytes n (f, c)).1.pending_ready ≡ true
    → append_from (bytes ++ more) n (f, c) ≡ append_from bytes n (f, c)
unfolding append_from
append_from-more [] more n f c h = append_from-full more n f c h
append_from-more (b ∷ bs) more n f c h = elim (Bool-cases f.pending_ready) [
  | inl p ↦ append_from-full (b ∷ (bs ++ more)) n f c p ∙ sym (append_from-full (b ∷ bs) n f c p)
  | inr p ↦
      let both : (t : List ℕ)
          → append_from (b ∷ t) n (f, c) ≡ append_from t (n + 1) (append_byte b (f, c)) =
        λ t. ap (λ q. if q then (n, f, c) else append_from t (n + 1) (append_byte b (f, c))) p in
      both (bs ++ more)
      ∙ append_from-more bs more (n + 1) (append_byte b (f, c)).0 (append_byte b (f, c)).1
          (sym (ap (λ (r : ℕ × Framer × Counters). r.1.pending_ready) (both bs)) ∙ h)
      ∙ sym (both bs)
]

-- Once a chunk has filled both line buffers, what stands behind it in the same chunk changes
-- nothing, the number of consumed bytes included: it is left to the caller, who has to hand it over
-- again.
pub append-full :
    (bytes more : List ℕ) (f : Framer) (c : Counters)
    → (append (some bytes) (f, c)).1.pending_ready ≡ true
    → append (some (bytes ++ more)) (f, c) ≡ append (some bytes) (f, c)
unfolding append
append-full bytes more f c h = append_from-more bytes more 0 f c h
