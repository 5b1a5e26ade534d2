-- ===== src/Session/Logical/Handshake.antt =====
-- The whole handshake of a new session: `identify` makes it, the dispatches that arrive meanwhile
-- are buffered, and `identify` ends with READY (services/session/v1/internal/server).
use Prim.Native.String.{len}
use cordis.Common.{
  ℕ, ◌+◌, ◌^◌, ◌≤◌, ◌<◌, ◌≡◌, ◌⊎◌, inl, inr, refl, ap, subst, ◌∙◌, String, Bool, true, false, none,
  some, List, [], ◌∷◌, ◌++◌, append_assoc, append-nil, arith, length, length-append, Bool-cases,
}
use cordis.Session.Config.{
  NodeConfig, pending_dispatch_limit, pending_dispatch_byte_limit, pending_dispatch_limit_fits,
  queue_size,
}
use cordis.Session.Logical.{
  LogicalSession, Binding, PendingDispatch, append_all, dispatch_session, finish_ready, new_session,
  new_binding,
}
use cordis.Session.Logical.Invariant.{Inv, Inv-unchanged}
use cordis.Session.Logical.Ready.{event_frames, append_all-Inv, append_all-binding}

-- The bytes that the buffer counts.
pub total_bytes : List PendingDispatch → ℕ
total_bytes [] = 0
total_bytes (p ∷ ps) = len p.event_type + len p.payload + total_bytes ps

total_bytes-append :
    (ps : List PendingDispatch) (p : PendingDispatch)
    → total_bytes (ps ++ p ∷ []) ≡ total_bytes ps + (len p.event_type + len p.payload)
unfolding total_bytes
total_bytes-append [] p = omega arith
total_bytes-append (x ∷ ps) p = omega (arith, total_bytes-append ps p)

-- The dispatches of a list of events, one after the other.
pub dispatch_all : NodeConfig → Bool → ℕ → LogicalSession → List PendingDispatch → LogicalSession
dispatch_all c pick now s [] = s
dispatch_all c pick now s (p ∷ ps) =
    dispatch_all c pick now (dispatch_session c pick now s p.event_type p.payload).0 ps

-- What the buffer is after the events `es`: all of them, or nothing once they were too many.
record Buffered (c : NodeConfig) (b : Binding) (es : List PendingDispatch) (s : LogicalSession)
    : Type 0 where
  early : s.initializing ≡ true
  unsent : s.sequence ≡ 0
  unread : s.binding ≡ some b
  holds : s.pending_dispatch_overflow ≡ false → s.pending_dispatches ≡ es
  counts : s.pending_dispatch_overflow ≡ false → s.pending_dispatch_bytes ≡ total_bytes es
  few : s.pending_dispatch_overflow ≡ false → length es ≤ pending_dispatch_limit c
  small : s.pending_dispatch_overflow ≡ false → total_bytes es ≤ pending_dispatch_byte_limit c
  too_many :
      s.pending_dispatch_overflow ≡ true
      → (pending_dispatch_limit c < length es) ⊎ (pending_dispatch_byte_limit c < total_bytes es)
  inv : Inv c [] s

module _ (c : NodeConfig) (pick : Bool) (now : ℕ) (b : Binding) where
  dispatch_session-Buffered :
      (es : List PendingDispatch) (p : PendingDispatch) (s : LogicalSession)
      → Buffered c b es s
      → Buffered c b (es ++ p ∷ []) (dispatch_session c pick now s p.event_type p.payload).0
  unfolding dispatch_session
  dispatch_session-Buffered es p s v = record {
    early = ground (arith, v.early);
    unsent = ground (arith, v.early, v.unsent);
    unread = ground (arith, v.early, v.unread);
    holds = λ h. ground (arith, v.early, v.holds);
    counts = λ h. ground (arith, v.early, v.counts, total_bytes-append es p);
    few = λ h. ground (arith, v.early, v.holds, length-append es (p ∷ []));
    small = λ h. ground (arith, v.early, v.counts, total_bytes-append es p);
    too_many = λ h. ground (
      arith,
      v.early,
      v.holds,
      v.counts,
      v.too_many,
      length-append es (p ∷ []),
      total_bytes-append es p,
    );
    inv =
        Inv-unchanged c [] s _ (ground (arith, v.early)) (ground (arith, v.early))
          (ground (arith, v.early)) (ground (arith, v.early)) (ground (arith, v.early))
          (ground (arith, v.early)) v.inv;
  }

  dispatch_all-Buffered :
      (done es : List PendingDispatch) (s : LogicalSession)
      → Buffered c b done s
      → Buffered c b (done ++ es) (dispatch_all c pick now s es)
  unfolding dispatch_all
  dispatch_all-Buffered done [] s v = rw append-nil v
  dispatch_all-Buffered done (p ∷ es) s v =
      subst (λ l. Buffered c b l (dispatch_all c pick now s (p ∷ es)))
        (append_assoc done (p ∷ []) es)
        (dispatch_all-Buffered (done ++ p ∷ []) es
          (dispatch_session c pick now s p.event_type p.payload).0
          (dispatch_session-Buffered done p s v))

pub new_session-Inv :
    (c : NodeConfig) (connection_id gateway_id gateway_generation : String)
    → Inv c [] (new_session c connection_id gateway_id gateway_generation)
unfolding new_session new_binding
new_session-Inv c connection_id gateway_id gateway_generation = record {
  tracks = record {
    counted = refl;
    numbered = tt;
    acked_le = omega arith;
    runs = omega arith;
    kept = refl;
    bound = (refl, refl, omega arith);
  };
  bounded = omega arith;
}

new_session-Buffered :
    (c : NodeConfig) (connection_id gateway_id gateway_generation : String)
    → Buffered c
        (new_binding connection_id 1 (queue_size c))
        []
        (new_session c connection_id gateway_id gateway_generation)
unfolding new_session total_bytes
new_session-Buffered c connection_id gateway_id gateway_generation = record {
  early = refl;
  unsent = refl;
  unread = refl;
  holds = λ h. refl;
  counts = λ h. refl;
  few = λ h. omega arith;
  small = λ h. omega arith;
  too_many = λ h. cc;
  inv = new_session-Inv c connection_id gateway_id gateway_generation;
}

module _ (c : NodeConfig) (pick : Bool) (now : ℕ) (b : Binding) (es : List PendingDispatch)
    (s : LogicalSession) (v : Buffered c b es s) (ready : String) where
  ready_events : List PendingDispatch
  ready_events = record { event_type = "ready"; payload = ready } ∷ es

  ready_session : LogicalSession
  ready_session = record (append_all c pick now s ready_events) {
    pending_dispatches = [];
    pending_dispatch_bytes = 0;
    initializing = false;
  }

  finish_ready_runs :
      s.pending_dispatch_overflow ≡ false → finish_ready c pick now s ready ≡ some ready_session
  unfolding finish_ready append_all ready_session ready_events
  finish_ready_runs h = rw (h, v.holds h)

  ready_session-binding :
      length es + 1 < 2 ^ 64
      → b.closed ≡ false
      → length b.send + length es + 1 ≤ b.capacity
      → ready_session.binding ≡ some (record b { send = b.send ++ event_frames 0 ready_events })
  unfolding ready_session ready_events
  ready_session-binding h o r =
      append_all-binding c pick now s ready_events b (omega (arith, v.unsent)) v.unread o
        (omega arith)
      ∙ ap (λ n. some (record b { send = b.send ++ event_frames n ready_events })) v.unsent

  ready_session-Inv : length es + 1 < 2 ^ 64 → Inv c (event_frames 0 ready_events) ready_session
  unfolding ready_session ready_events
  ready_session-Inv h =
      Inv-unchanged c _ (append_all c pick now s ready_events) _ refl refl refl refl refl refl (
        subst (λ n. Inv c (event_frames n ready_events) (append_all c pick now s ready_events))
          v.unsent (append_all-Inv c pick now [] s ready_events (omega (arith, v.unsent)) v.inv))

module _ (c : NodeConfig) (pick : Bool) (now : ℕ)
    (connection_id gateway_id gateway_generation ready : String) (es : List PendingDispatch) where
  -- Events that reach a new session before READY are delivered exactly if they keep within both
  -- limits, on their number and on their bytes. Then the handshake succeeds, the session is no
  -- longer initializing, and the new binding holds READY as number 1 and the events after it, in
  -- the order of their arrival; the invariant holds for that history. Otherwise the handshake
  -- fails. The condition on 2 ^ 64 is that the sequence does not wrap.
  pub handshake_delivers_all :
      length es + 1 < 2 ^ 64
      → let s =
          dispatch_all c pick now (new_session c connection_id gateway_id gateway_generation) es in
        ((length es ≤ pending_dispatch_limit c)
          × (total_bytes es ≤ pending_dispatch_byte_limit c)
          × (t : LogicalSession) × (finish_ready c pick now s ready ≡ some t)
          × (t.initializing ≡ false)
          × (t.binding
              ≡ some (record (new_binding connection_id 1 (queue_size c)) {
                send = event_frames 0 (record { event_type = "ready"; payload = ready } ∷ es);
              }))
          × Inv c (event_frames 0 (record { event_type = "ready"; payload = ready } ∷ es)) t)
        ⊎ (((pending_dispatch_limit c < length es)
              ⊎ (pending_dispatch_byte_limit c < total_bytes es))
            × (finish_ready c pick now s ready ≡ none))
  unfolding ready_events ready_session new_binding
  handshake_delivers_all h =
      let b : Binding = new_binding connection_id 1 (queue_size c) in
      let s : LogicalSession =
        dispatch_all c pick now (new_session c connection_id gateway_id gateway_generation) es in
      let v : Buffered c b es s =
        dispatch_all-Buffered c pick now b [] es
          (new_session c connection_id gateway_id gateway_generation)
          (new_session-Buffered c connection_id gateway_id gateway_generation) in
      elim (Bool-cases s.pending_dispatch_overflow) [
        | inl over ↦ inr (v.too_many over, unfold finish_ready in rw over)
        | inr held ↦ inl (
          v.few held,
          v.small held,
          ready_session c pick now b es s v ready,
          finish_ready_runs c pick now b es s v ready held,
          refl,
          ready_session-binding c pick now b es s v ready h refl
              (omega (arith, v.few held, pending_dispatch_limit_fits c)),
          ready_session-Inv c pick now b es s v ready h,
        )
      ]
