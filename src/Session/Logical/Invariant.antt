-- ===== src/Session/Logical/Invariant.antt =====
-- What holds of a logical session between two critical sections, against the history of all the
-- dispatch frames that it was ever given, oldest first.
use cordis.Common.{
  ℕ, ◌+◌, ◌-◌, ◌≤◌, ◌<◌, max, ◌≡◌, refl, sym, subst, false, inl, inr, Bool-cases, ltb, ltb→lt,
  Option, none, some, List, [], ◌∷◌, ◌++◌, map, map-append, arith, length, drop, length-append,
  length-drop, drop-append, drop-drop, map-drop,
}
use cordis.Session.Config.{NodeConfig, replay_limit, replay_limit_pos}
use cordis.Session.Logical.{
  LogicalSession, Binding, Frame, ReplayEntry, push_replay, trim_replay, sequence_at,
}
use cordis.Session.Logical.Runs.{
  Runs, Numbered, Runs-append, Runs-drop, Runs-length, sequence_at-Runs,
}

-- The number up to which events have left the buffer: acknowledged, or pushed out.
abbrev pub base : LogicalSession → ℕ
base s = max s.replay_floor s.acked_sequence

abbrev pub frames : List ReplayEntry → List Frame
frames = map (λ (e : ReplayEntry). e.frame)

-- A bound binding is open, has the session's epoch, and its queue is within its capacity.
abbrev pub IsOpen : Option Binding → ℕ → Type 0
IsOpen none epoch = Unit {0}
IsOpen (some b) epoch = (b.closed ≡ false) × (b.epoch ≡ epoch) × (length b.send ≤ b.capacity)

pub record Tracks (log : List Frame) (s : LogicalSession) : Type 0 where
  pub counted : length log ≡ s.sequence
  pub numbered : Numbered 0 log
  pub acked_le : s.acked_sequence ≤ s.sequence
  pub runs : Runs (base s) s.replay s.sequence
  pub kept : frames s.replay ≡ drop (base s) log
  pub bound : IsOpen s.binding s.binding_epoch

pub record Inv (c : NodeConfig) (log : List Frame) (s : LogicalSession) : Type 0 where
  pub tracks : Tracks log s
  pub open tracks use *
  pub bounded : length s.replay ≤ replay_limit c

Numbered-append :
    (n : ℕ) (fs : List Frame) (f : Frame)
    → Numbered n fs
    → f.sequence ≡ n + length fs + 1
    → Numbered n (fs ++ f ∷ [])
Numbered-append n [] f h e = (omega arith, tt)
Numbered-append n (x ∷ fs) f h e = (h.0, Numbered-append (n + 1) fs f h.1 (omega arith))

module _ (log : List Frame) (s : LogicalSession) (v : Tracks log s) where
  -- The buffer's end is the last number given out.
  pub base-length : base s + length s.replay ≡ s.sequence
  base-length = Runs-length (base s) s.sequence s.replay v.runs

  push-Runs :
      (e : ReplayEntry)
      → e.sequence ≡ s.sequence + 1
      → e.frame.sequence ≡ s.sequence + 1
      → Runs (base s) (s.replay ++ e ∷ []) e.sequence
  push-Runs e p q =
      subst (λ n. Runs (base s) (s.replay ++ e ∷ []) n) (sym p)
        (Runs-append (base s) s.sequence s.replay e v.runs p q)

  push_kept : (e : ReplayEntry) → frames (s.replay ++ e ∷ []) ≡ drop (base s) (log ++ e.frame ∷ [])
  push_kept e = rw (
    map-append,
    drop-append (base s) log (e.frame ∷ []) (omega (arith, base-length, v.counted)),
    v.kept,
  )

  pub push_replay-Tracks :
      (f : Frame) → f.sequence ≡ s.sequence + 1 → Tracks (log ++ f ∷ []) (push_replay s f)
  unfolding push_replay
  push_replay-Tracks f e = record {
    counted = omega (arith, length-append log (f ∷ []), v.counted);
    numbered = Numbered-append 0 log f v.numbered (omega (arith, v.counted));
    acked_le = omega (arith, v.acked_le);
    runs = push-Runs (record { sequence = f.sequence; frame = f }) e e;
    kept = push_kept (record { sequence = f.sequence; frame = f });
    bound = v.bound;
  }

  -- Cutting the buffer's front moves its base by what was cut.
  pub cut-Tracks :
      (o : ℕ) (t : LogicalSession)
      → o ≤ length s.replay
      → base t ≡ base s + o
      → t.replay ≡ drop o s.replay
      → t.sequence ≡ s.sequence
      → t.acked_sequence ≤ t.sequence
      → IsOpen t.binding t.binding_epoch
      → Tracks log t
  cut-Tracks o t h b r q a open_ = record {
    counted = omega (arith, v.counted);
    numbered = v.numbered;
    acked_le = a;
    runs = rw (b, r, q) (Runs-drop o (base s) s.sequence s.replay h v.runs);
    kept =
        rw (b, r, map-drop (λ (e : ReplayEntry). e.frame) o s.replay, v.kept)
          (drop-drop o (base s) (base s + o) log (omega arith));
    bound = open_;
  }

  trim_overflow :
      (limit : ℕ)
      → 0 < limit
      → limit < length s.replay
      → sequence_at s.replay (length s.replay - limit - 1) ≡ base s + (length s.replay - limit)
  trim_overflow limit p h = omega (
    arith,
    sequence_at-Runs (length s.replay - limit - 1) (base s) s.sequence s.replay v.runs
        (omega arith),
  )

  pub trim_replay-Inv : (c : NodeConfig) → Inv c log (trim_replay (replay_limit c) s)
  unfolding trim_replay
  trim_replay-Inv c = elim (Bool-cases (ltb (replay_limit c) (length s.replay))) [
    | inl over ↦
        let o : ℕ = length s.replay - replay_limit c in
        let h : replay_limit c < length s.replay = ltb→lt _ _ over in
        let e : sequence_at s.replay (o - 1) ≡ base s + o =
          trim_overflow (replay_limit c) (replay_limit_pos c) h in
        rw over (record {
          tracks = cut-Tracks o _ (omega arith) (omega arith) refl refl v.acked_le v.bound;
          bounded = omega (arith, length-drop o s.replay, replay_limit_pos c);
        })
    | inr fits ↦ rw fits (record { tracks = v; bounded = ground arith })
  ]

-- The invariant reads these fields only.
pub Inv-unchanged :
    (c : NodeConfig) (log : List Frame) (s t : LogicalSession)
    → t.sequence ≡ s.sequence
    → t.acked_sequence ≡ s.acked_sequence
    → t.replay ≡ s.replay
    → t.replay_floor ≡ s.replay_floor
    → t.binding ≡ s.binding
    → t.binding_epoch ≡ s.binding_epoch
    → Inv c log s
    → Inv c log t
Inv-unchanged c log s t q a r f b e v = record {
  tracks = record {
    counted = rw q v.counted;
    numbered = v.numbered;
    acked_le = omega (arith, v.acked_le);
    runs = rw (a, r, f, q) v.runs;
    kept = rw (a, r, f) v.kept;
    bound = rw (b, e) v.bound;
  };
  bounded = rw r v.bounded;
}
