-- ===== src/Session/Logical/Runs.antt =====
-- Runs of consecutive sequence numbers, and how the replay buffer's loops act on them
-- (appendDispatchLocked, acknowledgeLocked and resume of services/session/v1/internal/server).
use cordis.Common.{
  Bool-cases, inl, inr, leb, leb→le, ℕ, zero, suc, ◌+◌, ◌-◌, ◌≤◌, ◌<◌, ◌≡◌, refl, sym, subst, List,
  [], ◌∷◌, ◌++◌, arith, length, drop,
}
use cordis.Session.Logical.{ReplayEntry, Frame, sequence_at, drop_acked}
use cordis.Session.Connection.{entries_after}

-- The entries carry lo + 1, …, hi, each with a frame of its own number.
abbrev pub Runs : ℕ → List ReplayEntry → ℕ → Type 0
Runs lo [] hi = lo ≡ hi
Runs lo (e ∷ es) hi = (e.sequence ≡ lo + 1) × (e.frame.sequence ≡ lo + 1) × Runs (lo + 1) es hi

-- The frames of a history carry n + 1, n + 2, ….
abbrev pub Numbered : ℕ → List Frame → Type 0
Numbered n [] = Unit {0}
Numbered n (f ∷ fs) = (f.sequence ≡ n + 1) × Numbered (n + 1) fs

pub Runs-length : (lo hi : ℕ) (es : List ReplayEntry) → Runs lo es hi → lo + length es ≡ hi
Runs-length lo hi [] r = omega arith
Runs-length lo hi (e ∷ es) r = omega (arith, Runs-length (lo + 1) hi es r.2)

pub Runs-append :
    (lo hi : ℕ) (es : List ReplayEntry) (e : ReplayEntry)
    → Runs lo es hi
    → e.sequence ≡ hi + 1
    → e.frame.sequence ≡ hi + 1
    → Runs lo (es ++ e ∷ []) (hi + 1)
Runs-append lo hi [] e r p q = omega arith
Runs-append lo hi (x ∷ es) e r p q = (r.0, r.1, Runs-append (lo + 1) hi es e r.2 p q)

pub Runs-drop :
    (n lo hi : ℕ) (es : List ReplayEntry)
    → n ≤ length es
    → Runs lo es hi
    → Runs (lo + n) (drop n es) hi
Runs-drop zero lo hi es h r =
    let e : lo + zero ≡ lo = omega arith in subst (λ j. Runs j es hi) (sym e) r
Runs-drop (suc n) lo hi [] h r = absurd (omega arith)
Runs-drop (suc n) lo hi (x ∷ es) h r =
    let e : lo + suc n ≡ lo + 1 + n = omega arith in
    subst (λ j. Runs j (drop n es) hi) (sym e) (Runs-drop n (lo + 1) hi es (omega arith) r.2)

-- The read of `session.replay[overflow-1]` is in range, and finds the number at that place.
pub sequence_at-Runs :
    (i lo hi : ℕ) (es : List ReplayEntry)
    → Runs lo es hi
    → i < length es
    → sequence_at es i ≡ lo + i + 1
unfolding sequence_at
sequence_at-Runs i lo hi [] r h = absurd (omega arith)
sequence_at-Runs zero lo hi (e ∷ es) r h = omega arith
sequence_at-Runs (suc i) lo hi (e ∷ es) r h =
    omega (arith, sequence_at-Runs i (lo + 1) hi es r.2 (omega arith))

-- Nothing of a run is acknowledged by a number at or below its start.
drop_acked_above :
    (n lo hi : ℕ) (es : List ReplayEntry) → Runs lo es hi → n ≤ lo → drop_acked n es ≡ es
unfolding drop_acked
drop_acked_above n lo hi [] r h = refl
drop_acked_above n lo hi (e ∷ es) r h = ground arith

drop_acked_by :
    (k n lo hi : ℕ) (es : List ReplayEntry)
    → Runs lo es hi
    → n ≡ lo + k
    → drop_acked n es ≡ drop k es
unfolding drop_acked
drop_acked_by zero n lo hi es r e = drop_acked_above n lo hi es r (omega arith)
drop_acked_by (suc k) n lo hi [] r e = refl
drop_acked_by (suc k) n lo hi (x ∷ es) r e = ground (arith, drop_acked_by k n (lo + 1) hi es r.2)

-- Acknowledging cuts exactly the entries up to `n`.
pub drop_acked-Runs :
    (n lo hi : ℕ) (es : List ReplayEntry) → Runs lo es hi → drop_acked n es ≡ drop (n - lo) es
drop_acked-Runs n lo hi es r = elim (Bool-cases (leb n lo)) [
  | inl low ↦
      let z : n - lo ≡ 0 = ground arith in rw z (drop_acked_above n lo hi es r (leb→le n lo low))
  | inr high ↦ drop_acked_by (n - lo) n lo hi es r (ground arith)
]

entries_after_all :
    (n lo hi : ℕ) (es : List ReplayEntry) → Runs lo es hi → n ≤ lo → entries_after n es ≡ es
unfolding entries_after
entries_after_all n lo hi [] r h = refl
entries_after_all n lo hi (e ∷ es) r h = ground (arith, entries_after_all n (lo + 1) hi es r.2)

entries_after_by :
    (k n lo hi : ℕ) (es : List ReplayEntry)
    → Runs lo es hi
    → n ≡ lo + k
    → entries_after n es ≡ drop k es
unfolding entries_after
entries_after_by zero n lo hi es r e = entries_after_all n lo hi es r (omega arith)
entries_after_by (suc k) n lo hi [] r e = refl
entries_after_by (suc k) n lo hi (x ∷ es) r e =
    ground (arith, entries_after_by k n (lo + 1) hi es r.2)

-- What a client at `n` has missed is a suffix of the buffer.
pub entries_after-Runs :
    (n lo hi : ℕ) (es : List ReplayEntry)
    → Runs lo es hi
    → lo ≤ n
    → entries_after n es ≡ drop (n - lo) es
entries_after-Runs n lo hi es r l = entries_after_by (n - lo) n lo hi es r (omega arith)
