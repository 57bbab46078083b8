-- ===== src/Framer/Tests.antt =====
-- The framer at concrete inputs.
use cuddly_train.Base.{
  ℕ, ◌≡◌, ◌≤◌, ◌<◌, take, refl, true, List, [], ◌∷◌, ◌++◌, some, arith, length, replicate, set,
}
use cuddly_train.Counters.{zero_counters}
use cuddly_train.Framer.{Framer, init, append, append_byte}
use cuddly_train.Framer.Invariant.{IsValid, init-IsValid}
use cuddly_train.Framer.Stream.{view, feed_all, append_refines}
use cuddly_train.Framer.Lines.{encode}
use cuddly_train.Framer.Chunks.{append-encode, append-oversized, append-full}

abbrev wire : List ℕ
wire = b'a' ∷ b'b' ∷ b'\n' ∷ b'c' ∷ b'\n' ∷ b'd' ∷ []

-- Two lines fill the framer, so the sixth byte is left to the caller.
append_stops : (append (some wire) (init, zero_counters)).0 ≡ 5
unfolding append init append_byte
append_stops = refl

append_refines_example :
    let (n, f', c') = append (some wire) (init, zero_counters) in
    IsValid f'
    × (n ≤ 6)
    × (view f' c' ≡ feed_all (take n wire) (view init zero_counters))
    × (n < 6 → f'.pending_ready ≡ true)
append_refines_example = append_refines wire init zero_counters init-IsValid

abbrev two_texts : List (List ℕ)
two_texts = (b'a' ∷ []) ∷ [] ∷ []

append-encode_example :
    let (_, f', c') = append (some (encode two_texts)) (init, zero_counters) in
    view f' c' ≡ record (view init zero_counters) {
      lines = (view init zero_counters).lines ++ two_texts;
      partial = [];
    }
unfolding append init append_byte encode
append-encode_example =
    append-encode two_texts init zero_counters init-IsValid refl refl (ground arith) refl

long_line : List ℕ
long_line = replicate 1024 b'x'

long_line-consumed :
    (append (some (long_line ++ (b'\n' ∷ []))) (init, zero_counters)).0
    ≡ length (long_line ++ (b'\n' ∷ []))
unfolding long_line append init append_byte
long_line-consumed = refl

append-oversized_example :
    let (_, f', c') = append (some (long_line ++ (b'\n' ∷ []))) (init, zero_counters) in
    view f' c' ≡ record (view init zero_counters) { oversized = 1; partial = [] }
append-oversized_example =
    append-oversized long_line init zero_counters init-IsValid (unfold init in refl)
      (unfold init in refl) (unfold long_line in ground arith) (unfold long_line in omega arith)
      long_line-consumed

-- One line waits to be acquired, the next one behind it.
abbrev two_lines : Framer
two_lines = record init {
  active_line = set (replicate 1024 0) 0 b'a';
  active_length = 1;
  active_ready = true;
  pending_ready = true;
}

two_lines-IsValid : IsValid two_lines
unfolding init
two_lines-IsValid = ground arith

append-full_example :
    append (some ((b'a' ∷ b'\n' ∷ b'\n' ∷ []) ++ (b'b' ∷ b'\n' ∷ []))) (init, zero_counters)
    ≡ append (some (b'a' ∷ b'\n' ∷ b'\n' ∷ [])) (init, zero_counters)
unfolding append init append_byte
append-full_example =
    append-full (b'a' ∷ b'\n' ∷ b'\n' ∷ []) (b'b' ∷ b'\n' ∷ []) init zero_counters refl
