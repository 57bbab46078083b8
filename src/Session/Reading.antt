-- ===== src/Session/Reading.antt =====
-- Reading from the connection: it ends, and keeps the invariant.
use cuddly_train.Base.{
  ℕ, zero, suc, ◌+◌, ◌≤◌, ◌<◌, ◌≡◌, refl, Bool, true, ◌==◌, List, Option, some, none, arith, length,
  Bool-cases, inl, inr,
}
use cuddly_train.Counters.{Counters}
use cuddly_train.Wire.{
  LineView, MessageClass, connection_lost, link_lost, ConnectionHandle, TransportConnectionState,
  closed, link_down, is_open, bytes_available,
}
use cuddly_train.Platform.{Clock, Network}
use cuddly_train.Framer.{append, has_line}
use cuddly_train.Framer.Invariant.{acquire-IsValid}
use cuddly_train.Framer.Stream.{append_refines}
use cuddly_train.Writer.{Writer, Sending}
use cuddly_train.Session.{Session, is_active, request_teardown, session_active_now}
use cuddly_train.Session.Driver.{
  detect_active_loss, lost, has_bytes, read_loop, read_available, take_line, next_line,
}
use cuddly_train.Session.Invariant.{IsSound, has_session, request_teardown-IsSound}

-- What a network documents of received bytes: `unread` are those of a connection that wait. Reading
-- takes them from there, and asking does not add any.
pub record IsFinite {W : Type 0} (network : Network W) (unread : ConnectionHandle → W → ℕ)
    : Type 0 where
  pub state_quiet :
      (h : ConnectionHandle) (w : W) → unread h (network.connection_state h w).1 ≤ unread h w
  pub read_takes :
      (h : ConnectionHandle) (n : ℕ) (w : W)
      → length (network.read_some h n w).0 + unread h (network.read_some h n w).1 ≤ unread h w

lost-IsSound :
    (t : TransportConnectionState) (s : Session)
    → IsSound s
    → has_session s.state ≡ true
    → IsSound (lost t s)
lost-IsSound closed s v h = (request_teardown-IsSound connection_lost s v h).0
lost-IsSound link_down s v h = (request_teardown-IsSound link_lost s v h).0
lost-IsSound is_open s v h = v
lost-IsSound bytes_available s v h = v

framed-IsSound :
    (bytes : List ℕ) (s : Session)
    → IsSound s
    → let (_, f, c) = append (some bytes) (s.framer, s.counters) in
      IsSound (record s { framer = f; counters = c })
framed-IsSound bytes s v = record {
  set_up = v.set_up;
  framer_valid = (append_refines bytes s.framer s.counters v.framer_valid).0;
  bound = v.bound;
  in_session = v.in_session;
  pending = v.pending;
  at_rest = v.at_rest;
  replacement = v.replacement;
}

module _ {W : Type 0} (clock : Clock W) (network : Network W) (port : ℕ)
    (hook : Option (W → Bool × W)) (build_schema : W → Option (List ℕ) × W)
    (send : LineView → MessageClass → Writer × Counters × W → Sending W) where
  pub loss-IsSound :
      (s : Session) (w : W)
      → IsSound s
      → has_session s.state ≡ true
      → IsSound (detect_active_loss clock network port hook build_schema send (s, w)).0
  unfolding detect_active_loss
  loss-IsSound s w v h =
      let (there, w₁) = network.has_transport s.active_handle w in
      let (state, _) = network.connection_state s.active_handle w₁ in
      elim (Bool-cases there) [
        | inl t ↦ rw (t, detect_active_loss) (lost-IsSound state s v h)
        | inr t ↦ rw (t, detect_active_loss) (request_teardown-IsSound connection_lost s v h).0
      ]

  -- The loop of a read ends when the bytes that wait are read, and keeps the invariant.
  read_loop-IsSound :
      (unread : ConnectionHandle → W → ℕ)
      → IsFinite network unread
      → (fuel : ℕ) (s : Session) (w : W) → unread s.active_handle w < fuel
      → IsSound s
      → has_session s.state ≡ true
      → (out : Session × W) × (read_loop clock network port hook build_schema send fuel (s, w)
          ≡ some out)
        × IsSound out.0
  unfolding read_loop
  read_loop-IsSound unread law zero s w l v h = absurd (omega arith)
  read_loop-IsSound unread law (suc n) s w l v h =
      let (state, w₁) = network.connection_state s.active_handle w in
      let (bytes, w₂) = network.read_some s.active_handle 64 w₁ in
      let quiet = law.state_quiet s.active_handle w in
      let takes = law.read_takes s.active_handle 64 w₁ in
      elim (Bool-cases (has_line s.framer)) [
        | inl a ↦ rw a ((s, w), refl, v)
        | inr a ↦ rw a (elim (Bool-cases (has_bytes state)) [
          | inr b ↦ rw b ((lost state s, w₁), refl, lost-IsSound state s v h)
          | inl b ↦ rw b (elim (Bool-cases (length bytes == 0)) [
            | inl e ↦ rw e (_, refl, loss-IsSound s w₂ v h)
            | inr e ↦ rw e (
                read_loop-IsSound unread law n _ w₂ (ground (arith, quiet, takes))
                  (framed-IsSound bytes s v) h)
          ])
        ])
      ]

  pub read_available-IsSound :
      (unread : ConnectionHandle → W → ℕ)
      → IsFinite network unread
      → (fuel : ℕ) (s : Session) (w : W)
      → unread s.active_handle (network.has_transport s.active_handle w).1 < fuel
      → IsSound s
      → has_session s.state ≡ true
      → (out : Session × W) × (read_available clock network port hook build_schema send fuel (s, w)
          ≡ some out)
        × IsSound out.0
  unfolding read_available
  read_available-IsSound unread law fuel s w l v h =
      let (there, w₁) = network.has_transport s.active_handle w in
      elim (Bool-cases there) [
        | inl t ↦ rw (t, read_available) (read_loop-IsSound unread law fuel s w₁ l v h)
        | inr t ↦
            rw (t, read_available)
              (
                (request_teardown connection_lost s, w₁),
                refl,
                (request_teardown-IsSound connection_lost s v h).0,
              )
      ]

  take_line-IsSound :
      (s : Session) (w : W)
      → IsSound s
      → IsSound (take_line clock network port hook build_schema send (s, w)).1
  take_line-IsSound s w v = ground (
    arith,
    v.set_up,
    v.framer_valid,
    v.bound,
    v.in_session,
    v.pending,
    v.at_rest,
    v.replacement,
    acquire-IsValid s.framer v.framer_valid,
  )

  -- On a network that adds no bytes while it is read, the request for a line of a sound session always
  -- ends, with fuel for the bytes that wait, and keeps the invariant.
  pub next_line-IsSound :
      (unread : ConnectionHandle → W → ℕ)
      → IsFinite network unread
      → (fuel : ℕ) (s : Session) (w : W)
      → unread s.active_handle (network.has_transport s.active_handle w).1 < fuel
      → IsSound s
      → (out : LineView × Session × W) × (next_line clock network port hook build_schema send fuel
            (s, w)
          ≡ some out)
        × IsSound out.1
  unfolding next_line session_active_now
  next_line-IsSound unread law fuel s w l v = elim (Bool-cases (is_active s.state)) [
    | inr a ↦ ((none, s, w), ground (arith, a), v)
    | inl a ↦ elim (Bool-cases (has_line s.framer)) [
      | inl b ↦ (
        take_line clock network port hook build_schema send (s, w),
        ground (arith, a, b, v.in_session, v.pending),
        take_line-IsSound s w v,
      )
      | inr b ↦
          let ((s', w'), e, v') =
            read_available-IsSound unread law fuel s w l v (ground (arith, a)) in
          (
            take_line clock network port hook build_schema send (s', w'),
            ground (arith, a, b, e, v.in_session, v.pending),
            take_line-IsSound s' w' v',
          )
    ]
  ]
