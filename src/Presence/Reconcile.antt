-- ===== src/Presence/Reconcile.antt =====
-- The reconciliation of presence.go: a new snapshot has a new version, or the old status.
use cordis.Common.{
  ℕ, ◌<◌, ◌≡◌, ◌⊎◌, refl, sym, ap, subst, ◌∙◌, Bool, true, false, ◌||◌, ◌==◌, nat_eq, Option, none,
  some, inl, inr, List, [], ◌∷◌, arith, if◌then◌else◌,
}
use cordis.Common.Int.{ℤ}
use cordis.Common.Action.{◌>>◌, give}
use cordis.Common.Triple.{bind, then_weaken}
use cordis.Presence.{
  Lock, PresenceStatus, offline, online, idle, dnd, invisible, status_code, Versioned, Snapshot,
  UserSession, Live, World, Tx, Output, presence_updated, is_public, aggregate_status,
  aggregate_user_presence, preferred, save_user_presence_snapshot, resolve_user_presence,
  write_user_session,
}
use cordis.Presence.Transitions.{
  next_version, seen_at, is_changed, version_of, is_saved, save_if, reconcile_with,
  reconcile_user_presence, publish_transition, reconcile_and_publish,
}
use cordis.Presence.History.{
  Kept, shown, public_log, Tracks, version_or_zero, advance-Tracks, see-Tracks,
}
use cordis.Presence.Calls.{
  Fact, Inv, Step, call_keeps, give_keeps, write_keeps, publish_keeps, next_version_keeps,
  get_preference_keeps, get_snapshot_keeps,
}

pub assuming :
    {A : Type 0} {K : Type 0} (P : Fact) (m : Tx A) (Q : A → Fact)
    → (K → Step P m Q)
    → Step (λ p s os. K × P p s os) m Q
assuming P m Q f = record { holds = λ w h. (f ((h.1).0)).holds w (h.0, (h.1).1) }

same_code : (a b : PresenceStatus) → (status_code a == status_code b) ≡ true → a ≡ b
same_code a b h = ground (arith, h)

pub aggregate-is_public :
    (p : PresenceStatus) (ss : List UserSession) → is_public (aggregate_status p ss) ≡ true
aggregate-is_public p [] = refl
aggregate-is_public offline (s ∷ ss) = refl
aggregate-is_public online (s ∷ ss) = refl
aggregate-is_public idle (s ∷ ss) = refl
aggregate-is_public dnd (s ∷ ss) = refl
aggregate-is_public invisible (s ∷ ss) = refl

-- What the snapshot shows may be seen again.
pub see_shown :
    (v : Versioned) (s : Option Snapshot) (os : List Output)
    → shown s ≡ some v
    → Tracks is_public (shown s) (public_log os)
    → Tracks is_public (shown s) (v ∷ public_log os)
see_shown v s os e t =
    subst (λ o. Tracks is_public o (v ∷ public_log os)) (sym e)
      (see-Tracks is_public (subst (λ o. Tracks is_public o (public_log os)) e t))

-- What is known of the preference's row is kept by what follows.
module _ (F : Option Versioned → Type 0) where
  abbrev pub Known : Fact
  Known p s os = F p

  -- The snapshot has this public part, with this status.
  abbrev pub Shown : PresenceStatus → Versioned → Fact
  Shown status v p s os = ((shown s ≡ some v) × (v.status ≡ status)) × F p

  -- What is live is what the sessions and the row of the preference come to.
  abbrev pub Current : List UserSession → Live → Option Versioned → Type 0
  Current sessions live p = (live.status ≡ aggregate_status (preferred p) sessions) × F p

  pub resolve_keeps :
      (sessions : List UserSession)
      → Step Known
          (resolve_user_presence sessions)
          (λ live p s os. (is_public live.status ≡ true) × Current sessions live p)
  unfolding resolve_user_presence aggregate_user_presence
  resolve_keeps sessions =
      let Q : Live → Fact =
        λ live p s os. (is_public live.status ≡ true) × Current sessions live p in
      bind Inv (call_keeps Known) (λ u. bind Inv (get_preference_keeps Known) (λ o.
        give_keeps (λ p s os. (o ≡ p) × F p) Q (aggregate_user_presence (preferred o) sessions)
          (λ w h. (
            h.0,
            (
              aggregate-is_public (preferred o) sessions,
              (ap (λ p. aggregate_status (preferred p) sessions) ((h.1).0), (h.1).1),
            ),
          ))))

  pub write_user_session_keeps :
      (sessions : List UserSession)
      → Step Known
          (write_user_session sessions)
          (λ live p s os. (is_public live.status ≡ true) × Current sessions live p)
  unfolding write_user_session
  write_user_session_keeps sessions = bind Inv (call_keeps Known) (λ u. resolve_keeps sessions)

  module _ (live : Live) (k : is_public live.status ≡ true) (previous : Option Snapshot) where
    abbrev new_public : ℕ → Versioned
    new_public v = record { status = live.status; version = v }

    -- The version is the old one with the old status, or a higher one.
    abbrev Next : ℕ → Fact
    Next v p s os =
        ((shown s ≡ some (new_public v))
          ⊎ ((is_changed previous live ≡ true) × (version_or_zero is_public (shown s) < v)))
        × F p

    unchanged :
        (s : Option Snapshot)
        → is_changed s live ≡ false
        → shown s ≡ some (new_public (version_of s))
    unchanged none h = cc
    unchanged (some s) h =
        let e : s.public.status ≡ live.status =
          same_code s.public.status live.status (ground (arith, h)) in
        ap (λ x. some (record { status = x; version = s.public.version })) e

    version_of_lem : (s : Option Snapshot) → version_or_zero is_public (shown s) ≡ version_of s
    unfolding version_or_zero
    version_of_lem none = refl
    version_of_lem (some s) = refl

    above :
        (v : ℕ) (w : World)
        → version_of previous < v
        → previous ≡ w.snapshot
        → version_or_zero is_public (shown w.snapshot) < v
    above v w l e = subst (λ n. n < v) (sym (version_of_lem w.snapshot ∙ ap version_of (sym e))) l

    version_keeps :
        (c : Bool)
        → is_changed previous live ≡ c
        → Step
            (λ p s os. (previous ≡ s) × F p)
            (if c then next_version (version_of previous) else give (version_of previous))
            Next
    version_keeps true e =
        then_weaken Inv (next_version_keeps (λ p s os. (previous ≡ s) × F p) (version_of previous))
          (λ v w h. (h.0, (inr (e, above v w ((h.1).0) ((h.1).1.0)), (h.1).1.1)))
    version_keeps false e =
        give_keeps (λ p s os. (previous ≡ s) × F p) Next (version_of previous)
          (λ w h. (h.0, (inl (ap shown (sym ((h.1).0)) ∙ unchanged previous e), (h.1).1)))

    new_public-Tracks :
        (v : ℕ) (l : Lock) (p : Option Versioned) (s : Option Snapshot) (os : List Output)
        → Kept l p s os
        → Next v p s os
        → Tracks is_public (some (new_public v)) (public_log os)
    new_public-Tracks v l p s os h (inl e, f) =
        subst (λ o. Tracks is_public o (public_log os)) e (h.public)
    new_public-Tracks v l p s os h (inr (c, m), f) =
        advance-Tracks is_public (new_public v) k m (h.public)

    save_keeps :
        (v seen : ℕ) (b : Bool)
        → (is_changed previous live ≡ true → b ≡ true)
        → Step
            (Next v)
            (save_if b (record { public = new_public v; last_seen_at = seen }))
            (λ u. Shown live.status (new_public v))
    unfolding save_if save_user_presence_snapshot
    save_keeps v seen true c =
        write_keeps (Next v) (Shown live.status (new_public v))
          (λ w. record w {
            snapshot = some (record { public = new_public v; last_seen_at = seen });
          })
          (λ w h. (
            record {
              lasts = (h.0).lasts;
              private = (h.0).private;
              public = new_public-Tracks v w.lock w.preference w.snapshot w.outputs (h.0) (h.1);
            },
            ((refl, refl), (h.1).1),
          ))
    save_keeps v seen false c = record {
      holds = λ w h. (h.0, ((not_changed ((h.1).0), refl), (h.1).1));
    }
      where
        not_changed :
            {o : Option Versioned} {x : Type 0}
            → (o ≡ some (new_public v)) ⊎ ((is_changed previous live ≡ true) × x)
            → o ≡ some (new_public v)
        not_changed (inl e) = e
        not_changed (inr (e, l)) = cc (c e)

    pub reconcile_with_keeps :
        Step
          (λ p s os. (previous ≡ s) × F p)
          (reconcile_with live previous)
          (λ x. Shown live.status ((x.0).public))
    unfolding reconcile_with
    reconcile_with_keeps =
        let seen = seen_at previous live in
        let Q : Snapshot × Bool → Fact = λ x. Shown live.status ((x.0).public) in
        bind Inv (version_keeps (is_changed previous live) refl) (λ v.
          bind Inv
            (save_keeps v seen (is_changed previous live || is_saved previous seen)
              (λ e. rw e refl))
            (λ u.
              give_keeps (Shown live.status (new_public v)) Q
                (record { public = new_public v; last_seen_at = seen }, is_changed previous live)
                (λ w h. h)))

  pub reconcile_user_presence_keeps :
      (live : Live)
      → is_public live.status ≡ true
      → Step Known (reconcile_user_presence live) (λ x. Shown live.status ((x.0).public))
  unfolding reconcile_user_presence
  reconcile_user_presence_keeps live k =
      bind Inv (get_snapshot_keeps Known) (reconcile_with_keeps live k)

  publish_transition_keeps :
      (status : PresenceStatus) (c : Bool) (v : Versioned) (guild_ids : List ℤ)
      → Step (Shown status v) (publish_transition c v guild_ids) (λ u. Shown status v)
  unfolding publish_transition
  publish_transition_keeps status false v guild_ids =
      give_keeps (Shown status v) (λ u. Shown status v) tt (λ w h. h)
  publish_transition_keeps status true v guild_ids =
      publish_keeps (Shown status v) (presence_updated v guild_ids) (λ w h. (
        record {
          lasts = (h.0).lasts;
          private = (h.0).private;
          public = see_shown v w.snapshot w.outputs ((h.1).0.0) ((h.0).public);
        },
        h.1,
      ))

  pub reconcile_and_publish_keeps :
      (guild_ids : List ℤ) (live : Live)
      → is_public live.status ≡ true
      → Step Known (reconcile_and_publish guild_ids live) (Shown live.status)
  unfolding reconcile_and_publish
  reconcile_and_publish_keeps guild_ids live k =
      let f : (x : Snapshot × Bool)
          → Step (Shown live.status ((x.0).public))
              (do publish_transition (x.1) ((x.0).public) guild_ids; give ((x.0).public))
              (Shown live.status) =
        λ x. bind Inv (publish_transition_keeps live.status (x.1) ((x.0).public) guild_ids) (λ u.
          give_keeps (Shown live.status ((x.0).public)) (Shown live.status) ((x.0).public)
            (λ w h. h)) in
      bind Inv (reconcile_user_presence_keeps live k) f
