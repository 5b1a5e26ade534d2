-- ===== src/Session/Logical/Ready.antt =====
-- The READY handshake of `identify` (services/session/v1/internal/server/connection.go): events
-- that arrive while READY is assembled wait (dispatch.go), and follow it on the new binding.
use cordis.Common.{
  ℕ, ◌+◌, ◌^◌, ◌≤◌, ◌<◌, ◌≡◌, ap, subst, ◌∙◌, String, Bool, false, some, List, [], ◌∷◌, ◌++◌,
  append_assoc, append-nil, arith, length, length-append,
}
use cordis.Session.Config.{NodeConfig}
use cordis.Session.Logical.{
  LogicalSession, Binding, Frame, PendingDispatch, dispatch_frame, append_dispatch, append_all,
  finish_ready, u64,
}
use cordis.Session.Logical.Invariant.{Inv, Inv-unchanged}
use cordis.Session.Logical.Steps.{
  event_frame, append_dispatch-Inv, append_dispatch-sequence, append_dispatch-binding,
}

-- The frames that a list of events becomes after the number `n`.
abbrev pub event_frames : ℕ → List PendingDispatch → List Frame
event_frames n [] = []
event_frames n (p ∷ ps) = dispatch_frame (n + 1) p.event_type p.payload ∷ event_frames (n + 1) ps

pub event_frame-eq :
    (s : LogicalSession) (event_type payload : String)
    → s.sequence + 1 < 2 ^ 64
    → event_frame s event_type payload ≡ dispatch_frame (s.sequence + 1) event_type payload
event_frame-eq s event_type payload h =
    let e : u64 (s.sequence + 1) ≡ s.sequence + 1 = omega arith in
    ap (λ n. dispatch_frame n event_type payload) e

module _ (c : NodeConfig) (pick : Bool) (now : ℕ) where
  pub append_all-Inv :
      (log : List Frame) (s : LogicalSession) (ps : List PendingDispatch)
      → s.sequence + length ps < 2 ^ 64
      → Inv c log s
      → Inv c (log ++ event_frames s.sequence ps) (append_all c pick now s ps)
  unfolding append_all
  append_all-Inv log s [] h v = rw append-nil v
  append_all-Inv log s (p ∷ ps) h v =
      let q : s.sequence + 1 < 2 ^ 64 = omega arith in
      let t : LogicalSession = append_dispatch c pick now s p.event_type p.payload in
      let e : t.sequence ≡ s.sequence + 1 =
        append_dispatch-sequence c pick now s p.event_type p.payload q in
      let f : Frame = dispatch_frame (s.sequence + 1) p.event_type p.payload in
      let w : Inv c (log ++ f ∷ []) t =
        subst (λ g. Inv c (log ++ g ∷ []) t) (event_frame-eq s p.event_type p.payload q)
          (append_dispatch-Inv c log s pick now p.event_type p.payload q v) in
      subst (λ n. Inv c (log ++ f ∷ event_frames n ps) (append_all c pick now t ps)) e
        (subst (λ l. Inv c l (append_all c pick now t ps))
          (append_assoc log (f ∷ []) (event_frames t.sequence ps))
          (append_all-Inv (log ++ f ∷ []) t ps (omega arith) w))

  -- With room for all of them, the events follow what the binding holds already.
  pub append_all-binding :
      (s : LogicalSession) (ps : List PendingDispatch) (b : Binding)
      → s.sequence + length ps < 2 ^ 64
      → s.binding ≡ some b
      → b.closed ≡ false
      → length b.send + length ps ≤ b.capacity
      → (append_all c pick now s ps).binding
        ≡ some (record b { send = b.send ++ event_frames s.sequence ps })
  unfolding append_all
  append_all-binding s [] b h e o r = rw append-nil e
  append_all-binding s (p ∷ ps) b h e o r =
      let q : s.sequence + 1 < 2 ^ 64 = omega arith in
      let t : LogicalSession = append_dispatch c pick now s p.event_type p.payload in
      let n : t.sequence ≡ s.sequence + 1 =
        append_dispatch-sequence c pick now s p.event_type p.payload q in
      let f : Frame = event_frame s p.event_type p.payload in
      let b' : Binding = record b { send = b.send ++ f ∷ [] } in
      let ih : (append_all c pick now t ps).binding
          ≡ some (record b { send = (b.send ++ f ∷ []) ++ event_frames t.sequence ps }) =
        append_all-binding t ps b' (omega arith)
          (append_dispatch-binding c pick now s p.event_type p.payload b e o (omega arith)) o
          (omega (arith, length-append b.send (f ∷ []))) in
      ih
      ∙ ap (λ l. some (record b { send = l }))
          (append_assoc b.send (f ∷ []) (event_frames t.sequence ps)
            ∙ ap (λ m. b.send ++ f ∷ event_frames m ps) n
            ∙ ap (λ g. b.send ++ g ∷ event_frames (s.sequence + 1) ps)
                (event_frame-eq s p.event_type p.payload q))

  -- READY and what was buffered join the history in one step.
  pub finish_ready-Inv :
      (log : List Frame) (s t : LogicalSession) (ready : String)
      → finish_ready c pick now s ready ≡ some t
      → s.sequence + (length s.pending_dispatches + 1) < 2 ^ 64
      → Inv c log s
      → Inv c
          (log
            ++ event_frames s.sequence
                (record { event_type = "ready"; payload = ready } ∷ s.pending_dispatches))
          t
  unfolding finish_ready append_all
  finish_ready-Inv log s t ready e h v =
      let ps : List PendingDispatch =
        record { event_type = "ready"; payload = ready } ∷ s.pending_dispatches in
      Inv-unchanged c (log ++ event_frames s.sequence ps) (append_all c pick now s ps) t
        (ground arith) (ground arith) (ground arith) (ground arith) (ground arith) (ground arith)
        (append_all-Inv log s ps (omega arith) v)
