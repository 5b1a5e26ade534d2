-- ===== src/Presence/Calls.antt =====
-- What each call of presence.go does to the rows and to what others have seen.
use cordis.Common.{
  ℕ, ◌+◌, ◌-◌, ◌^◌, ◌<◌, ◌≡◌, refl, Bool, true, false, ◌==◌, nat_eq, Option, none, some, inl, inr,
  List, ◌∷◌, arith, ltb, ltb→lt, Bool-cases, if◌then◌else◌,
}
use cordis.Common.Action.{give, gets, fail, fail_if}
use cordis.Common.Triple.{Triple, Post, bind}
use cordis.Presence.{
  Versioned, Snapshot, Output, Outcome, done, lost, unsure, World, Error, version_exhausted, Tx,
  Lock, held, expires, lock_expired, rest_of, until_call, first_outcome, next_call, settled,
  published, call, write, publish, generate, is_preference, is_public, get_user_presence_preference,
  get_user_presence_snapshot, read_preference, read_snapshot,
}
use cordis.Presence.Transitions.{has_expired, release, with_user_mutation, next_version}
use cordis.Presence.History.{Kept, shown, Tracks, untouched, tracked, status_of_kind}

-- A statement of the rows and of the outputs.
abbrev pub Fact : Type 1
Fact = Option Versioned → Option Snapshot → List Output → Type 0

abbrev pub Inv : World → Type 0
Inv w = Kept w.lock w.preference w.snapshot w.outputs

abbrev pub Holds : Fact → World → Type 0
Holds P w = Inv w × P w.preference w.snapshot w.outputs

abbrev pub Step : {A : Type 0} → Fact → Tx A → (A → Fact) → Type 0
Step P m Q = Triple Inv (Holds P) m (λ a w. Holds (Q a) w)

until_call_keeps :
    (P : Fact) (l : Lock) (w : World) → l ≡ held → Holds P w → Holds P (until_call l w)
until_call_keeps P held w e h = h
until_call_keeps P (expires others) w e h = absurd (cc)

-- While the lock is held, nothing happens between the handler's calls.
next_call_keeps : (P : Fact) (w : World) → Holds P w → Holds P (next_call w)
next_call_keeps P w h =
    until_call_keeps P w.lock (record w { outcomes = rest_of w.outcomes }) ((h.0).lasts) h

settled_keeps :
    (Q : Fact) (o : Outcome) (before after : World)
    → Inv before
    → Holds Q after
    → Post Inv (λ u w. Holds Q w) (settled o before after)
settled_keeps Q done before after h k = k
settled_keeps Q lost before after h k = h
settled_keeps Q unsure before after h k = k.0

-- A write of rows that keeps the invariant, whether it fails before or after its effect.
pub write_keeps :
    (P Q : Fact) (f : World → World)
    → ((w : World) → Holds P w → Holds Q (f w))
    → Step P (write f) (λ u. Q)
unfolding write
write_keeps P Q f k = record {
  holds = λ w h.
      settled_keeps Q (first_outcome w.outcomes) (next_call w) (f (next_call w))
        ((next_call_keeps P w h).0) (k (next_call w) (next_call_keeps P w h));
}

published_keeps :
    (Q : Fact) (o : Outcome) (before after : World)
    → Holds Q before
    → Holds Q after
    → Holds Q (published o before after)
published_keeps Q done before after h k = k
published_keeps Q lost before after h k = h
published_keeps Q unsure before after h k = k

if_keeps :
    (Q : Fact) (b : Bool) (v w : World) → Holds Q v → Holds Q w → Holds Q (if b then v else w)
if_keeps Q true v w h k = h
if_keeps Q false v w h k = k

-- A publication that fails is like none.
pub publish_keeps :
    (P : Fact) (e : Output)
    → ((w : World) → Holds P w → Holds P (record w { outputs = e ∷ w.outputs }))
    → Step P (publish e) (λ u. P)
unfolding publish
publish_keeps P e k = record {
  holds = λ w h.
      let now = next_call w in
      let g = next_call_keeps P w h in
      if_keeps P w.has_publisher
        (published (first_outcome w.outcomes) now (record now { outputs = e ∷ now.outputs })) w
        (published_keeps P (first_outcome w.outcomes) now (record now { outputs = e ∷ now.outputs })
          g (k now g))
        h;
}

pub call_keeps : (P : Fact) → Step P call (λ u. P)
unfolding call
call_keeps P = record {
  holds = λ w h.
      settled_keeps P (first_outcome w.outcomes) (next_call w) (next_call w)
        ((next_call_keeps P w h).0) (next_call_keeps P w h);
}

pub give_keeps :
    {A : Type 0} (P : Fact) (Q : A → Fact) (a : A)
    → ((w : World) → Holds P w → Holds (Q a) w)
    → Step P (give a) Q
give_keeps P Q a k = record { holds = k }

pub fail_keeps : {A : Type 0} (P : Fact) (Q : A → Fact) (e : Error) → Step P (fail e) Q
fail_keeps P Q e = record { holds = λ w h. h.0 }

pub fail_if_keeps : (P : Fact) (b : Bool) (e : Error) → Step P (fail_if b e) (λ u. P)
fail_if_keeps P true e = record { holds = λ w h. h.0 }
fail_if_keeps P false e = record { holds = λ w h. h }

not_expired : (l : Lock) → l ≡ held → has_expired l ≡ false
not_expired held e = refl
not_expired (expires others) e = absurd (cc)

release_keeps : (P : Fact) → Step P release (λ u. P)
unfolding release
release_keeps P =
    let Q : Bool → Fact = λ b p s os. (b ≡ false) × P p s os in
    let k : (u : Unit {0}) → Step P (gets (λ w. has_expired w.lock)) Q =
      λ u. record { holds = λ w h. (h.0, (not_expired w.lock ((h.0).lasts), h.1)) } in
    bind Inv (call_keeps P) (λ u. bind Inv (k u) (λ b. weaken_fail_if b))
  where
    weaken_fail_if :
        (b : Bool) → Step (λ p s os. (b ≡ false) × P p s os) (fail_if b lock_expired) (λ u. P)
    weaken_fail_if true = record { holds = λ w h. h.0 }
    weaken_fail_if false = record { holds = λ w h. (h.0, (h.1).1) }

-- What a mutation under the lock gives.
pub with_user_mutation_keeps :
    {A : Type 0} (P : Fact) (m : Tx A) (Q : A → Fact) → Step P m Q → Step P (with_user_mutation m) Q
unfolding with_user_mutation
with_user_mutation_keeps P m Q h =
    bind Inv (call_keeps P)
      (λ u. bind Inv h (λ a. bind Inv (release_keeps (Q a)) (λ u. give_keeps (Q a) Q a (λ w k. k))))

generate_keeps : (P : Fact) → Step P generate (λ n. P)
unfolding generate
generate_keeps P = record { holds = λ w h. h }

-- A new version is above the old one, whatever was generated.
pub next_version_keeps :
    (P : Fact) (previous : ℕ)
    → Step P (next_version previous) (λ v p s os. (previous < v) × P p s os)
unfolding next_version
next_version_keeps P previous =
    let Q : ℕ → Fact = λ v p s os. (previous < v) × P p s os in
    let k : (n : ℕ)
        → Step P
            (if ltb previous n
              then give n
              else if previous == 2 ^ 63 - 1
              then fail version_exhausted
              else give (previous + 1))
            Q =
      λ n. elim (Bool-cases (ltb previous n)) [
        | inl l ↦ rw l (give_keeps P Q n (λ w h. (h.0, (ltb→lt previous n l, h.1))))
        | inr l ↦ rw l (elim (Bool-cases (previous == 2 ^ 63 - 1)) [
          | inl e ↦ rw e (fail_keeps P Q version_exhausted)
          | inr e ↦ rw e (give_keeps P Q (previous + 1) (λ w h. (h.0, (omega arith, h.1))))
        ])
      ] in
    bind Inv (generate_keeps P) k

-- The rows that the invariant allows are read as they are.
read_preference_lem :
    {o : Option Versioned} {log : List Versioned}
    → Tracks is_preference o log
    → read_preference o ≡ o
read_preference_lem untouched = refl
read_preference_lem (tracked {v = v} p h) =
    let n : (v.version == 0) ≡ false = ground (arith, p) in
    rw (status_of_kind is_preference h) (rw n refl)

read_snapshot_lem :
    (s : Option Snapshot) {log : List Versioned}
    → Tracks is_public (shown s) log
    → read_snapshot s ≡ s
read_snapshot_lem none t = refl
read_snapshot_lem (some s) (tracked p h) =
    let n : (s.public.version == 0) ≡ false = ground (arith, p) in
    rw (status_of_kind is_public h) (rw n refl)

pub get_preference_keeps :
    (P : Fact) → Step P get_user_presence_preference (λ o p s os. (o ≡ p) × P p s os)
unfolding get_user_presence_preference
get_preference_keeps P =
    let Q : Option Versioned → Fact = λ o p s os. (o ≡ p) × P p s os in
    let k : (u : Unit {0}) → Step P (gets (λ w. read_preference w.preference)) Q =
      λ u. record { holds = λ w h. (h.0, (read_preference_lem ((h.0).private), h.1)) } in
    bind Inv (call_keeps P) k

pub get_snapshot_keeps :
    (P : Fact) → Step P get_user_presence_snapshot (λ o p s os. (o ≡ s) × P p s os)
unfolding get_user_presence_snapshot
get_snapshot_keeps P =
    let Q : Option Snapshot → Fact = λ o p s os. (o ≡ s) × P p s os in
    let k : (u : Unit {0}) → Step P (gets (λ w. read_snapshot w.snapshot)) Q =
      λ u. record { holds = λ w h. (h.0, (read_snapshot_lem w.snapshot ((h.0).public), h.1)) } in
    bind Inv (call_keeps P) k
