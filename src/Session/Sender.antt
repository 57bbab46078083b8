-- ===== src/Session/Sender.antt =====
-- What the session relies on of the writer, and that src/core/OutboundWriter.h provides it.
use cuddly_train.Base.{
  ℕ, ◌≡◌, refl, Bool, true, List, Option, some, none, arith, Bool-cases, inl, inr, Option-cases,
}
use cuddly_train.Counters.{Counters}
use cuddly_train.Wire.{LineView, MessageClass, sent, busy, ConnectionHandle}
use cuddly_train.Platform.{Clock, Network}
use cuddly_train.Writer.{
  Writer, Sending, send_line, send_bound, send_valid_line, finish_send, handle_deadline, settle,
  is_valid_wire_line, line_bytes, send_loop,
}

-- A send keeps the bound transport, and asks for no teardown when the line was sent.
pub record IsSender {W : Type 0}
    (send : LineView → MessageClass → Writer × Counters × W → Sending W) : Type 0 where
  pub keeps_transport :
      (line : LineView) (m : MessageClass) (wr : Writer) (c : Counters) (w : W)
      → (send line m (wr, c, w)).writer.transport ≡ wr.transport
  pub sent_quiet :
      (line : LineView) (m : MessageClass) (wr : Writer) (c : Counters) (w : W)
      → (send line m (wr, c, w)).result ≡ sent
      → (send line m (wr, c, w)).teardown ≡ none

module _ {W : Type 0} (clock : Clock W) (network : Network W) where
  -- The result of a send, whose loop ends with enough fuel (`Writer.Valid.send_line-Sends`).
  abbrev pub settled : Writer × Counters × W → Option (Sending W) → Sending W
  settled (wr, c, w) none = record {
    result = busy;
    writer = wr;
    counters = c;
    teardown = none;
    world = w;
  }
  settled (wr, c, w) (some out) = out

  unfoldable pub sender : ℕ → LineView → MessageClass → Writer × Counters × W → Sending W
  sender fuel line m (wr, c, w) =
      settled (wr, c, w) (send_line clock network fuel line m (wr, c, w))

-- The parts of the law, of one outcome.
abbrev Lawful : {W : Type 0} → Writer → Sending W → Type 0
Lawful wr out = (out.writer.transport ≡ wr.transport) × (out.result ≡ sent → out.teardown ≡ none)

finish-Lawful :
    {W : Type 0} (m : MessageClass) (wr : Writer) (c : Counters) (done : Bool) (w : W)
    → Lawful wr (settle (finish_send m (record wr { send_in_progress = true }) c (done, w)))
unfolding finish_send handle_deadline
finish-Lawful m wr c done w = ground arith

module _ {W : Type 0} (clock : Clock W) (network : Network W) (fuel : ℕ) where
  bound-Lawful :
      (line : List ℕ) (t : Option ConnectionHandle) (m : MessageClass) (wr : Writer) (c : Counters)
      (w : W)
      → Lawful wr
          (settled clock network (wr, c, w) (send_bound clock network fuel line t m (wr, c, w)))
  unfolding send_bound send_valid_line
  bound-Lawful line none m wr c w = ground arith
  bound-Lawful line (some h) m wr c w =
      let (now, w₁) = clock.monotonic_milliseconds w in
      elim (Option-cases (send_loop clock network fuel h line now 0 w₁)) [
        | inl e ↦ rw (e, send_bound, send_valid_line) (refl, λ h. refl)
        | inr ((done, w'), e) ↦ rw (e, send_bound, send_valid_line) (finish-Lawful m wr c done w')
      ]

  line-Lawful :
      (line : LineView) (m : MessageClass) (wr : Writer) (c : Counters) (w : W)
      → Lawful wr (sender clock network fuel line m (wr, c, w))
  unfolding sender send_line
  line-Lawful line m wr c w = elim (Bool-cases wr.send_in_progress) [
    | inl b ↦ ground (arith, b)
    | inr b ↦ elim (Bool-cases (is_valid_wire_line line)) [
      | inl v ↦ ground (arith, bound-Lawful (line_bytes line) wr.transport m wr c w)
      | inr v ↦ ground (arith, v)
    ]
  ]

  -- The writer is such a sender, whatever its fuel, its clock and its network: every way out of
  -- `sendLine` keeps the bound transport, and a line that was sent asks for no teardown.
  pub sender-IsSender : IsSender (sender clock network fuel)
  sender-IsSender = record {
    keeps_transport = λ line m wr c w. (line-Lawful line m wr c w).0;
    sent_quiet = λ line m wr c w. (line-Lawful line m wr c w).1;
  }
