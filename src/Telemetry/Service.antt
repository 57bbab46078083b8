-- ===== src/Telemetry/Service.antt =====
-- What a round of the telemetry scheduler does.
use mathlib.Core.Path.{subst}
use mathlib.Core.List.{append_assoc}
use cuddly_train.Json.Decimal.{decimal}
use cuddly_train.Json.Escape.{quote}
use cuddly_train.Telemetry.Line.{fitting, frame, head_text, build_line_lem}
use cuddly_train.Outbound.Accepted.{IsLine-is_valid_line}
use cuddly_train.Base.{
  ℕ, ◌+◌, ◌%◌, ◌^◌, ◌≡◌, ◌∙◌, sym, ap, inl, inr, refl, [], ◌∷◌, ◌++◌, codes, length-append,
  if◌then◌else◌, Bool, true, false, not, ◌||◌, List, Option, some, none, arith, ltb, Bool-cases,
}
use cuddly_train.Counters.{Counters, increment, telemetry_dropped, telemetry_coalesced}
use cuddly_train.Platform.{Clock, elapsed}
use cuddly_train.Protocol.{BoardIdentity}
use cuddly_train.Outbound.{Scheduler, replace_telemetry, is_valid_line}
use cuddly_train.Telemetry.{
  Telemetry, activated, service, build_and_queue, provided, queue_line, ask, build_line,
  is_object_text,
}

-- Whether a frame is due: at the first round of a session, and then once a period has passed.
abbrev pub is_due : Telemetry → ℕ → Bool
is_due t now = not t.session_active || t.first_frame_due || not (ltb (elapsed now t.last_due_ms) 50)

-- What a due round leaves, of the state before, the time it was due and the frame that was made.
abbrev pub Served :
    {W : Type 0}
    → Option (List ℕ)
    → ℕ
    → ℕ
    → Scheduler
    → Counters
    → Telemetry × Scheduler × Counters × W
    → Type 0
Served none seq now s c (t', s', c', w') =
    (s' ≡ s)
    × (c' ≡ increment telemetry_dropped c)
    × (t'.next_seq ≡ seq)
    × (t'.session_active ≡ true)
    × (t'.first_frame_due ≡ false)
    × (t'.last_due_ms ≡ now)
Served (some line) seq now s c (t', s', c', w') =
    (s' ≡ record s { telemetry_bytes = line; telemetry_active = true })
    × (c' ≡ (if s.telemetry_active then increment telemetry_coalesced c else c))
    × (t'.next_seq ≡ (seq + 1) % 2 ^ 64)
    × (t'.session_active ≡ true)
    × (t'.first_frame_due ≡ false)
    × (t'.last_due_ms ≡ now)

-- The telemetry behind the reading of the clock in a due round.
abbrev HasStarted : ℕ → ℕ → Telemetry → Type 0
HasStarted seq now t =
    (t.next_seq ≡ seq)
    × (t.session_active ≡ true)
    × (t.first_frame_due ≡ false)
    × (t.last_due_ms ≡ now)

-- A frame that fits is a line.
frame-is_valid_line :
    (seq now : ℕ) (id text line : List ℕ)
    → fitting (frame seq now id text) ≡ some line
    → is_valid_line (some line) ≡ true
frame-is_valid_line seq now id text line h =
    let whole : frame seq now id text ≡ line = ground (arith, h) in
    IsLine-is_valid_line (some line) (record {
      text = front ++ (b'}' ∷ []);
      ends = ap some (sym whole ∙ sym (append_assoc front (b'}' ∷ []) (b'\n' ∷ [])));
      short =
          ground
            (arith, h, length-append front (b'}' ∷ []), length-append front (b'}' ∷ b'\n' ∷ []));
    })
  where
    front : List ℕ
    front =
        ((((head_text seq ++ decimal now) ++ codes ",\"source\":") ++ quote id)
          ++ codes ",\"target\":\"controller\",\"telemetry\":")
        ++ text

module _ {W : Type 0} (clock : Clock W) (identity : BoardIdentity)
    (provider : Option (W → Option (List ℕ) × W)) where
  -- The frame of what the provider hands out: none unless it is the text of a closed object and the
  -- frame fits.
  abbrev pub made : ℕ → List ℕ → Option (List ℕ) × W → Option (List ℕ)
  made seq id (none, w) = none
  made seq id (some text, w) =
      if is_object_text text
      then fitting (frame seq (clock.monotonic_milliseconds w).0 id text)
      else none

  line-Served :
      (o : Option (List ℕ)) (seq now : ℕ) (t : Telemetry) (s : Scheduler) (c : Counters) (w : W)
      → HasStarted seq now t
      → ((line : List ℕ) → o ≡ some line → is_valid_line (some line) ≡ true)
      → Served o seq now s c (queue_line clock identity provider (t, s, c) (o, w))
  unfolding replace_telemetry
  line-Served none seq now t s c w (q, a, f, d) v = (refl, refl, q, a, f, d)
  line-Served (some line) seq now t s c w (q, a, f, d) v =
      rw (v line refl, replace_telemetry) (refl, refl, ap (λ n. (n + 1) % 2 ^ 64) q, a, f, d)

  built :
      (seq : ℕ) (id text : List ℕ) (w : W)
      → identity.board_id ≡ some id
      → (b : Bool) → is_object_text text ≡ b
      → (build_line clock identity seq text w).0 ≡ made seq id (some text, w)
  unfolding build_line
  built seq id text w e true o =
      ap (λ out. out.0) (build_line_lem clock seq id text identity w e o) ∙ sym (rw o refl)
  built seq id text w e false o = rw (o, build_line) refl

  made-valid :
      (seq : ℕ) (id text line : List ℕ) (w : W)
      → made seq id (some text, w) ≡ some line
      → is_valid_line (some line) ≡ true
  made-valid seq id text line w h = elim (Bool-cases (is_object_text text)) [
    | inl o ↦ frame-is_valid_line seq (clock.monotonic_milliseconds w).0 id text line (rw o at h)
    | inr o ↦ absurd (none≢some (rw o at h))
  ]
    where
      none≢some : (none ≡ some line) → ⊥
      none≢some k = cc

  text-Served :
      (o : Option (List ℕ)) (id : List ℕ) (now : ℕ) (t : Telemetry) (s : Scheduler) (c : Counters)
      (w : W)
      → identity.board_id ≡ some id
      → HasStarted t.next_seq now t
      → Served
          (made t.next_seq id (o, w))
          t.next_seq
          now
          s
          c
          (provided clock identity provider (t, s, c) (o, w))
  text-Served none id now t s c w e h = line-Served none t.next_seq now t s c w h (λ l k. cc)
  text-Served (some text) id now t s c w e h =
      let (line, w') = build_line clock identity t.next_seq text w in
      let same = built t.next_seq id text w e (is_object_text text) refl in
      subst
        (λ o. Served o t.next_seq now s c (queue_line clock identity provider (t, s, c) (line, w')))
        same
        (line-Served line t.next_seq now t s c w' h
          (λ l k. made-valid t.next_seq id text l w (sym same ∙ k)))

  activated-active : (t : Telemetry) → (activated clock identity provider t).session_active ≡ true
  activated-active t = ground arith

  activated_seq : (t : Telemetry) → (activated clock identity provider t).next_seq ≡ t.next_seq
  activated_seq t = ground arith

  service-idle :
      (t : Telemetry) (s : Scheduler) (c : Counters) (w : W)
      → is_due t (clock.monotonic_milliseconds w).0 ≡ false
      → service clock identity provider (t, s, c, w) ≡ (t, s, c, (clock.monotonic_milliseconds w).1)
  unfolding service
  service-idle t s c w h = ground (arith, h)

  service-due :
      (t : Telemetry) (s : Scheduler) (c : Counters) (w : W)
      → is_due t (clock.monotonic_milliseconds w).0 ≡ true
      → let (now, w') = clock.monotonic_milliseconds w in
        service clock identity provider (t, s, c, w)
        ≡ build_and_queue clock identity provider (
          record (activated clock identity provider t) {
            first_frame_due = false;
            last_due_ms = now;
          },
          s,
          c,
          w',
        )
  unfolding service
  service-due t s c w h = ground (arith, h)

  -- On a board with a name, a round does nothing to the outbound side until a frame is due: at the
  -- first round of a session, and then once 50 ms have passed since the last due one. A due round
  -- keeps its time, and asks the provider. If that hands out the text of a closed object and the frame
  -- of it fits, exactly this frame replaces the telemetry that waits, which is counted if there was
  -- any, and uses up one sequence number; otherwise it is dropped and counted once, and its sequence
  -- number is kept for the next one. No critical line is touched.
  pub service_lem :
      (id : List ℕ) (t : Telemetry) (s : Scheduler) (c : Counters) (w : W)
      → identity.board_id ≡ some id
      → let (now, w₁) = clock.monotonic_milliseconds w in
        let out = service clock identity provider (t, s, c, w) in
        (is_due t now ≡ false → out ≡ (t, s, c, w₁))
        × (is_due t now ≡ true
            → Served
                (made t.next_seq id (ask clock identity provider provider w₁))
                t.next_seq
                now
                s
                c
                out)
  unfolding build_and_queue
  service_lem id t s c w e =
      let (now, w₁) = clock.monotonic_milliseconds w in
      let (text, w₂) = ask clock identity provider provider w₁ in
      let t' = record (activated clock identity provider t) {
        first_frame_due = false;
        last_due_ms = now;
      } in
      (
        service-idle t s c w,
        λ h. rw (service-due t s c w h) (
            subst
              (λ k.
                Served (made k id (text, w₂)) k now s c
                  (build_and_queue clock identity provider (t', s, c, w₁)))
              (activated_seq t)
              (text-Served text id now t' s c w₂ e (refl, activated-active t, refl, refl))),
      )
