-- ===== src/Session/Successor.antt =====
-- Which connection a session has behind `applyPendingTeardown` of src/core/SessionDriver.h.
use mathlib.Core.Path.{subst}
use cuddly_train.Framer.{close_session}
use cuddly_train.Base.{
  ℕ, suc, ◌≡◌, ◌∙◌, sym, refl, ap, Bool, true, false, ◌&&◌, List, Option, some, none, arith,
  Bool-cases, inl, inr,
}
use cuddly_train.Counters.{Counters}
use cuddly_train.Wire.{
  LineView, MessageClass, critical, OutboundSendResult, sent, TeardownReason, schema_send_failure,
  ConnectionHandle, is_valid_connection_handle, invalid_connection,
}
use cuddly_train.Platform.{Clock, Network}
use cuddly_train.Writer.{Writer, Sending, bind_transport}
use cuddly_train.Session.{
  Session, listening, session_active, session_closing, session_connected, transition_to, took,
  apply_request,
}
use cuddly_train.Session.Driver.{
  tear_down, schema_answered, schema_built, promote_accepted_connection, promote_replacement,
  apply_from, apply_pending_teardown,
}
use cuddly_train.Session.Sender.{IsSender}
use cuddly_train.Session.Invariant.{IsSound, is_closing}
use cuddly_train.Session.Teardown.{
  IsFresh, IsEnding, IsSettled, IsFresh-sent, fresh_request, fresh_replace, IsEnding-replace,
  connected-IsFresh, tear_down-IsSound, torn-IsSound, apply_from-closing, apply_from-quiet,
  apply_pending_teardown-IsSettled,
}

abbrev pub is_sent : OutboundSendResult → Bool
is_sent sent = true
is_sent _ = false

-- The connection of a session: the one of a handle, or none.
abbrev pub Follows : Bool → ConnectionHandle → Session → Type 0
Follows true handle s = (s.state ≡ session_active) × (s.active_handle ≡ handle)
Follows false handle s =
    (s.state ≡ listening) × (is_valid_connection_handle s.active_handle ≡ false)

module _ {W : Type 0} (clock : Clock W) (network : Network W) (port : ℕ)
    (hook : Option (W → Bool × W)) (build_schema : W → Option (List ℕ) × W)
    (send : LineView → MessageClass → Writer × Counters × W → Sending W) (law : IsSender send) where
  -- Whether a line of the schema was built and is sent.
  abbrev pub takes_schema : Option (List ℕ) → Writer × Counters × W → Bool
  takes_schema none out = false
  takes_schema (some line) out = is_sent (send (some line) critical out).result

  -- Whether a connection takes over from a session that was torn down: its handle is valid, its
  -- transport is there, and it is sent the schema, with the writer bound to it.
  abbrev pub takes_over : ConnectionHandle → Session × W → Bool
  takes_over handle (s, w) =
      let (there, w₁) = network.has_transport handle w in
      let (line, w₂) = build_schema w₁ in
      is_valid_connection_handle handle
      && there
      && takes_schema line (bind_transport handle s.writer, s.counters, w₂)

  -- What a failed promotion goes on with ends the session.
  abbrev Listens : (Session × W → Session × W) → Type 0
  Listens again =
      (handle : ConnectionHandle) (s : Session) (w : W)
      → IsEnding s
      → Follows false handle (again (s, w)).0

  torn-Follows :
      (handle : ConnectionHandle) (s : Session) (w : W)
      → IsSound s
      → s.state ≡ session_closing
      → Follows false handle (tear_down clock network port hook build_schema send (s, w)).0
  torn-Follows handle s w v e =
      let (listens, inactive, _, _, _, _, _) =
        tear_down-IsSound clock network port hook build_schema send law s w v e in
      (listens, inactive)

  apply_from-Listens :
      (n : ℕ) → Listens (apply_from clock network port hook build_schema send (suc n))
  unfolding promote_replacement
  apply_from-Listens n handle s w (v, e, r) =
      let (s', w') = tear_down clock network port hook build_schema send (s, w) in
      let same = (tear_down-IsSound clock network port hook build_schema send law s w v e).3 in
      let none_waits : is_valid_connection_handle s'.replacement_handle ≡ false =
        ap is_valid_connection_handle same ∙ r in
      rw (apply_from-closing clock network port hook build_schema send law n s w v e)
        (rw (none_waits, promote_replacement) (torn-Follows handle s w v e))

  fresh-Follows :
      (s : Session) (c : Counters)
      → IsFresh s
      → Follows true s.active_handle (transition_to session_active (record s { counters = c }))
  unfolding transition_to
  fresh-Follows s c v = ground (arith, v.state_is)

  answered-Follows :
      (again : Session × W → Session × W) (r : OutboundSendResult) (t : Option TeardownReason)
      (s : Session) (w : W)
      → Listens again
      → IsFresh s
      → (r ≡ sent → t ≡ none)
      → Follows
          (is_sent r)
          s.active_handle
          (schema_answered clock network port hook build_schema send again r
            (apply_request t s, w)).0
  unfolding schema_answered
  answered-Follows again sent none s w a v q = fresh-Follows s _ v
  answered-Follows again sent (some r) s w a v q = absurd (some≢none (q refl))
    where
      some≢none : (some r ≡ none) → ⊥
      some≢none e = cc
  answered-Follows again _ none s w a v q =
      a s.active_handle _ w (fresh_replace schema_send_failure s v)
  answered-Follows again _ (some r) s w a v q =
      a s.active_handle _ w (IsEnding-replace schema_send_failure _ (fresh_request r s v))

  built-Follows :
      (again : Session × W → Session × W) (line : Option (List ℕ)) (s : Session) (w : W)
      → Listens again
      → IsFresh s
      → Follows
          (takes_schema line (s.writer, s.counters, w))
          s.active_handle
          (schema_built clock network port hook build_schema send again line (s, w)).0
  unfolding schema_built took
  built-Follows again none s w a v = a s.active_handle _ w (fresh_request schema_send_failure s v)
  built-Follows again (some line) s w a v =
      let out = send (some line) critical (s.writer, s.counters, w) in
      answered-Follows again out.result out.teardown _ out.world a
        (IsFresh-sent s out.writer out.counters v
          (law.keeps_transport (some line) critical s.writer s.counters w))
        (law.sent_quiet (some line) critical s.writer s.counters w)

  -- What a session that is connected has of the one before.
  connected_parts :
      (handle : ConnectionHandle) (s : Session)
      → s.state ≡ listening
      → let t = transition_to session_connected (record s {
        active_handle = handle;
        writer = bind_transport handle s.writer;
        framer = close_session s.framer;
      }) in
        (t.active_handle ≡ handle)
        × (t.writer ≡ bind_transport handle s.writer)
        × (t.counters ≡ s.counters)
  unfolding transition_to
  connected_parts handle s e = ground (arith, e)

  built-Follows_as :
      (again : Session × W → Session × W) (line : Option (List ℕ)) (s : Session) (w : W)
      (handle : ConnectionHandle) (wr : Writer) (c : Counters)
      → Listens again
      → IsFresh s
      → s.active_handle ≡ handle
      → s.writer ≡ wr
      → s.counters ≡ c
      → Follows
          (takes_schema line (wr, c, w))
          handle
          (schema_built clock network port hook build_schema send again line (s, w)).0
  built-Follows_as again line s w handle wr c a v e f g =
      rw (sym e, sym f, sym g) (built-Follows again line s w a v)

  promote-Follows :
      (again : Session × W → Session × W) (handle : ConnectionHandle) (s : Session) (w : W)
      → Listens again
      → IsSound s
      → s.state ≡ listening
      → is_valid_connection_handle handle ≡ true
      → Follows
          (takes_over handle (s, w))
          handle
          (promote_accepted_connection clock network port hook build_schema send again handle
            (s, w)).0
  unfolding promote_accepted_connection
  promote-Follows again handle s w a v e h =
      let (there, w₁) = network.has_transport handle w in
      let (line, w₂) = build_schema w₁ in
      let (f, g, k) = connected_parts handle s e in
      elim (Bool-cases there) [
        | inl t ↦
            rw (h, t, promote_accepted_connection)
              (built-Follows_as again line _ w₂ handle (bind_transport handle s.writer) s.counters a
                (connected-IsFresh clock network port hook build_schema send law handle s v e h) f g
                k)
        | inr t ↦ rw (h, t, promote_accepted_connection) (e, ground (arith, v.in_session, e))
      ]

  closing-Follows :
      (s : Session) (w : W)
      → IsSound s
      → s.state ≡ session_closing
      → Follows
          (takes_over s.replacement_handle
            (tear_down clock network port hook build_schema send (s, w)))
          s.replacement_handle
          (apply_from clock network port hook build_schema send 2 (s, w)).0
  unfolding promote_replacement
  closing-Follows s w v e =
      let (s', w') = tear_down clock network port hook build_schema send (s, w) in
      let (alone, cleared, listens) =
        torn-IsSound clock network port hook build_schema send law s w v e in
      let same = (tear_down-IsSound clock network port hook build_schema send law s w v e).3 in
      rw (apply_from-closing clock network port hook build_schema send law 1 s w v e) (
        subst
          (λ h.
            Follows (takes_over h (s', w')) h
              (promote_replacement clock network port hook build_schema send
                (apply_from clock network port hook build_schema send 1) (s', w')).0)
          same
          (elim (Bool-cases (is_valid_connection_handle s'.replacement_handle)) [
            | inl r ↦
                let p =
                  promote-Follows (apply_from clock network port hook build_schema send 1)
                    s'.replacement_handle (record s' { replacement_handle = invalid_connection }) w'
                    (apply_from-Listens 0) cleared listens r in
                rw (r, promote_replacement) (rw r at p)
            | inr r ↦ rw (r, promote_replacement) (torn-Follows s'.replacement_handle s w v e)
          ]))

  -- For a writer that is a sender, applying a teardown to a sound session that closes keeps its
  -- invariant and leaves no teardown pending. If a valid connection waits to replace the old one, has
  -- its transport, and is sent the schema with the writer bound to it, the session is active with
  -- exactly this connection; otherwise it listens and has no connection. A sound session that does not
  -- close has no teardown to apply and is left as it is.
  pub apply_pending_teardown-Follows :
      (s : Session) (w : W)
      → IsSound s
      → let (s', w') = apply_pending_teardown clock network port hook build_schema send (s, w) in
        IsSettled s'
        × (s'.teardown_pending ≡ false)
        × (is_closing s.state ≡ true
            → Follows
                (takes_over s.replacement_handle
                  (tear_down clock network port hook build_schema send (s, w)))
                s.replacement_handle
                s')
        × (is_closing s.state ≡ false → (s' ≡ s) × (w' ≡ w))
  unfolding apply_pending_teardown
  apply_pending_teardown-Follows s w v =
      let settled =
        apply_pending_teardown-IsSettled clock network port hook build_schema send law s w v in
      let quiet = apply_from-quiet clock network port hook build_schema send law 1 s w in
      (
        settled,
        settled.0.pending ∙ settled.1,
        λ c. closing-Follows s w v (closing s c),
        λ n. let same = quiet (v.pending ∙ n) in (ap (λ o. o.0) same, ap (λ o. o.1) same),
      )
    where
      closing : (s : Session) → is_closing s.state ≡ true → s.state ≡ session_closing
      closing s e = ground arith
