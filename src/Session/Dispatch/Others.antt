-- ===== src/Session/Dispatch/Others.antt =====
-- What a node knows of a user from whom a channel was taken away, while other goroutines go on
-- (visibility.go).
use cordis.Common.{
  ℕ, ◌≡◌, ◌⊎◌, inl, inr, refl, ap, subst, true, false, ◌==◌, ◌&&◌, nat_eq, string_eq, Option, none,
  some, List, [], ◌∷◌, arith, Option-cases,
}
use cordis.Common.Int.{ℤ, int_leb, int_eq, int_beq_iff}
use cordis.Session.Visibility.{
  VisibilitySnapshot, VisibilityEntry, or_new, Users, entry_of, snapshot_for, retain, retain_entry,
  release, invalidate, invalidate_entry, remove_guild, install, mark_reconcile,
}
use cordis.Session.Visibility.Revisions.{
  Op, retains, releases, invalidates, removes_guild, reconciles, installs, step, after, ends,
  is_up_to, step_up_to,
}
use cordis.Session.Dispatch.{
  Load, Reload, own, joined, Ensure, contains, reload_visibility_snapshot,
}

abbrev pub Each : {A : Type 0} → (A → Type 0) → List A → Type 0
Each P [] = Unit {0}
Each P (x ∷ xs) = P x × Each P xs

-- The channel of the guild was taken away from the user at this access revision.
pub record Revocation : Type 0 where
  pub user_id : ℤ
  pub guild_id : ℤ
  pub channel_id : ℤ
  pub revision : ℤ

module _ (taken : Revocation) where
  -- The node asks for this revision at least, and holds no snapshot with the channel.
  pub record Closed (users : Users) : Type 0 where
    pub up_to :
        is_up_to taken.user_id taken.guild_id taken.revision
          (entry_of users taken.user_id taken.guild_id)
        ≡ true
    pub hidden :
        (s : VisibilitySnapshot)
        → snapshot_for users taken.user_id taken.guild_id ≡ some s
        → contains s taken.channel_id ≡ false

  -- From this revision on the guild service does not show the channel to the user.
  abbrev pub Brings : ℤ → Option VisibilitySnapshot → Type 0
  Brings v o =
      v ≡ taken.user_id
      → (s : VisibilitySnapshot) → o ≡ some s
      → int_leb taken.revision s.access_revision ≡ true
      → contains s taken.channel_id ≡ false

  -- What another goroutine does: a snapshot that it brings comes from the guild service, and it neither
  -- removes the guild nor ends a session of the user.
  abbrev pub Lawful : Op → Type 0
  Lawful (retains v loaded) = Brings v (loaded taken.guild_id)
  Lawful (releases v) = (v == taken.user_id) ≡ false
  Lawful (removes_guild v g) = (v == taken.user_id && g == taken.guild_id) ≡ false
  Lawful (installs v g n c) = g ≡ taken.guild_id → Brings v (some c)
  Lawful (invalidates v g r) = Unit {0}
  Lawful (reconciles v g) = Unit {0}

  pub record LawfulLoad (v : ℤ) (l : Load) : Type 0 where
    pub answers : Brings v l.answer
    pub others : Each Lawful l.meanwhile

  -- The snapshot is the result of a reload that began when the node asked for the revision
  -- already.
  pub record BeganAfter (s : VisibilitySnapshot) : Type 0 where
    pub start : Users
    pub loads : List Load
    pub closed : Closed start
    pub lawful : Each (LawfulLoad taken.user_id) loads
    pub brings : (reload_visibility_snapshot loads taken.user_id taken.guild_id start).1 ≡ some s

  -- A reload of another caller may be joined for the user if it began after that.
  pub data LawfulReload (v : ℤ) : Reload → Type 0 where
    lawful_own :
        {ops : List Op} {loads : List Load}
        → Each Lawful ops
        → Each (LawfulLoad v) loads
        → LawfulReload v (own ops loads)
    lawful_joined :
        {ops : List Op} {result : Option VisibilitySnapshot}
        → Each Lawful ops
        → (v ≡ taken.user_id → (s : VisibilitySnapshot) → result ≡ some s → BeganAfter s)
        → LawfulReload v (joined ops result)

  pub record LawfulCall (v : ℤ) (call : Ensure) : Type 0 where
    pub others : Each Lawful call.earlier
    pub answered : LawfulReload v call.reload

  not_ended :
      (users : Users) (op : Op) → Lawful op → ends taken.user_id taken.guild_id users op ≡ false
  not_ended users (retains v loaded) l = refl
  not_ended users (releases v) l = rw l refl
  not_ended users (removes_guild v g) l = l
  not_ended users (installs v g n c) l = refl
  not_ended users (invalidates v g r) l = refl
  not_ended users (reconciles v g) l = refl

  entry_snapshot :
      (o : Option VisibilityEntry) (c s : VisibilitySnapshot)
      → is_up_to taken.user_id taken.guild_id taken.revision o ≡ true
      → (retain_entry o c).snapshot ≡ some s
      → ((c ≡ s) × (int_leb taken.revision s.access_revision ≡ true))
        ⊎ ((or_new o).snapshot ≡ some s)
  unfolding retain_entry
  entry_snapshot none c s h e = absurd (cc)
  entry_snapshot (some entry) c s h e = ground (arith, h, e)

  retain_snapshot :
      (users : Users) (v : ℤ) (loaded : ℤ → Option VisibilitySnapshot) (s : VisibilitySnapshot)
      → is_up_to taken.user_id taken.guild_id taken.revision
          (entry_of users taken.user_id taken.guild_id)
        ≡ true
      → snapshot_for (retain users v loaded) taken.user_id taken.guild_id ≡ some s
      → ((v ≡ taken.user_id)
          × ((loaded taken.guild_id ≡ some s) × (int_leb taken.revision s.access_revision ≡ true)))
        ⊎ (snapshot_for users taken.user_id taken.guild_id ≡ some s)
  unfolding snapshot_for retain
  retain_snapshot users v loaded s h e = elim (Option-cases (users taken.user_id)) [
    | inl f ↦ ground (arith, h)
    | inr (state, f) ↦ elim (Option-cases (loaded taken.guild_id)) [
      | inl g ↦ inr (ground (arith, h, e, int_beq_iff taken.user_id v))
      | inr (c, g) ↦ ground (
        arith,
        h,
        e,
        int_beq_iff taken.user_id v,
        entry_snapshot (state.snapshots taken.guild_id) c s,
      )
    ]
  ]

  install_recent :
      (users : Users) (v g : ℤ) (n : ℕ) (c s : VisibilitySnapshot)
      → is_up_to taken.user_id taken.guild_id taken.revision
          (entry_of users taken.user_id taken.guild_id)
        ≡ true
      → snapshot_for (install users v g n c).0 taken.user_id taken.guild_id ≡ some s
      → (((v ≡ taken.user_id) × (g ≡ taken.guild_id))
          × ((c ≡ s) × (int_leb taken.revision s.access_revision ≡ true)))
        ⊎ (snapshot_for users taken.user_id taken.guild_id ≡ some s)
  unfolding snapshot_for install
  install_recent users v g n c s h e =
      ground (arith, h, e, int_beq_iff taken.user_id v, int_beq_iff taken.guild_id g)

  -- A snapshot that is there after an operation was there before it, or is a recent one that the
  -- operation brings.
  step_snapshot :
      (users : Users) (op : Op) (s : VisibilitySnapshot)
      → Lawful op
      → Closed users
      → snapshot_for (step users op) taken.user_id taken.guild_id ≡ some s
      → (contains s taken.channel_id ≡ false)
        ⊎ (snapshot_for users taken.user_id taken.guild_id ≡ some s)
  unfolding step snapshot_for retain retain_entry release invalidate invalidate_entry remove_guild
      install mark_reconcile
  step_snapshot users (retains v loaded) s l h e =
      elim (retain_snapshot users v loaded s h.up_to e) [
        | inl (i, (f, k)) ↦ inl (l i s f k)
        | inr f ↦ inr f
      ]
  step_snapshot users (releases v) s l h e =
      inr (ground (arith, e, int_beq_iff taken.user_id v, int_beq_iff v taken.user_id))
  step_snapshot users (removes_guild v g) s l h e = inr (
      ground (
        arith,
        e,
        l,
        int_beq_iff taken.user_id v,
        int_beq_iff v taken.user_id,
        int_beq_iff taken.guild_id g,
        int_beq_iff g taken.guild_id,
      ))
  step_snapshot users (installs v g n c) s l h e = elim (install_recent users v g n c s h.up_to e) [
    | inl ((i, j), (f, k)) ↦ inl (l j i s (ap some f) k)
    | inr f ↦ inr f
  ]
  step_snapshot users (invalidates v g r) s l h e =
      inr (ground (arith, e, int_beq_iff taken.user_id v, int_beq_iff taken.guild_id g))
  step_snapshot users (reconciles v g) s l h e =
      inr (ground (arith, e, int_beq_iff taken.user_id v, int_beq_iff taken.guild_id g))

  step-Closed : (users : Users) (op : Op) → Lawful op → Closed users → Closed (step users op)
  step-Closed users op l h = record {
    up_to =
        step_up_to taken.user_id taken.guild_id taken.revision users op (not_ended users op l)
          h.up_to;
    hidden = λ s e. elim (step_snapshot users op s l h e) [ inl f ↦ f | inr f ↦ h.hidden s f ];
  }

  pub after-Closed :
      (users : Users) (ops : List Op) → Each Lawful ops → Closed users → Closed (after users ops)
  unfolding after
  after-Closed users [] l h = h
  after-Closed users (op ∷ ops) l h =
      after-Closed (step users op) ops (l.1) (step-Closed users op (l.0) h)

  install_snapshot :
      (users : Users) (v : ℤ) (n : ℕ) (c s : VisibilitySnapshot)
      → snapshot_for (install users v taken.guild_id n c).0 taken.user_id taken.guild_id ≡ some s
      → ((v ≡ taken.user_id) × (c ≡ s)) ⊎ (snapshot_for users taken.user_id taken.guild_id ≡ some s)
  unfolding snapshot_for install
  install_snapshot users v n c s h =
      ground (arith, h, int_beq_iff taken.user_id v, int_beq_iff taken.guild_id taken.guild_id)

  reconcile_snapshot :
      (users : Users) (v : ℤ) (s : VisibilitySnapshot)
      → snapshot_for (mark_reconcile users v taken.guild_id).0 taken.user_id taken.guild_id ≡ some s
      → snapshot_for users taken.user_id taken.guild_id ≡ some s
  unfolding snapshot_for mark_reconcile
  reconcile_snapshot users v s h =
      ground (arith, h, int_beq_iff taken.user_id v, int_beq_iff taken.guild_id taken.guild_id)

  pub install-Closed :
      (users : Users) (v : ℤ) (n : ℕ) (c : VisibilitySnapshot)
      → Closed users
      → (v ≡ taken.user_id → contains c taken.channel_id ≡ false)
      → Closed ((install users v taken.guild_id n c).0)
  install-Closed users v n c h k = record {
    up_to =
        unfold step in
        step_up_to taken.user_id taken.guild_id taken.revision users (installs v taken.guild_id n c)
          refl h.up_to;
    hidden = λ s e. elim (install_snapshot users v n c s e) [
      | inl (a, b) ↦ subst (λ x. contains x taken.channel_id ≡ false) b (k a)
      | inr b ↦ h.hidden s b
    ];
  }

  pub reconcile-Closed :
      (users : Users) (v : ℤ) → Closed users → Closed ((mark_reconcile users v taken.guild_id).0)
  reconcile-Closed users v h = record {
    up_to =
        unfold step in
        step_up_to taken.user_id taken.guild_id taken.revision users (reconciles v taken.guild_id)
          refl h.up_to;
    hidden = λ s e. h.hidden s (reconcile_snapshot users v s e);
  }
