-- ===== src/Session/Dispatch/Viewers.antt =====
-- Who gets the messages of a channel.
use cordis.Common.{
  ◌≡◌, inl, inr, refl, sym, ◌∙◌, Bool, true, false, ◌==◌, nat_eq, string_eq, Option, none, some,
  List, [], ◌∷◌, ◌++◌, Bool-cases, if◌then◌else◌,
}
use cordis.Common.Int.{ℤ, int_eq, int_beq_iff}
use cordis.Session.Visibility.{VisibilitySnapshot, Users, mark_reconcile}
use cordis.Session.Dispatch.{
  NodeSession, Handed, message, reconcile, Delivery, Ensure, contains, ensure_visibility_snapshot,
  sessions_of, dispatch_sessions, dispatch_visibility_reconcile, deliver,
  dispatch_visible_guild_channel,
}
use cordis.Session.Dispatch.Others.{Each, Revocation, Closed, LawfulCall, reconcile-Closed}
use cordis.Session.Dispatch.Reloading.{Found, ensure-Found}

abbrev pub is_message : Handed → Bool
is_message (message t p) = true
is_message (reconcile g c) = false

module _ (taken : Revocation) where
  -- No message for the user.
  abbrev pub Withheld : Delivery → Type 0
  Withheld d = d.session.user_id ≡ taken.user_id → is_message d.handed ≡ false

  sessions_of-Each :
      (v : ℤ) (handed : Handed) (ss : List NodeSession)
      → (v ≡ taken.user_id → is_message handed ≡ false)
      → Each Withheld (dispatch_sessions (sessions_of v ss) handed)
  sessions_of-Each v handed [] k = tt
  sessions_of-Each v handed (s ∷ ss) k = elim (Bool-cases (s.user_id == v)) [
    | inl c ↦
        rw c ((λ e. k (sym ((int_beq_iff s.user_id v).0 c) ∙ e)), sessions_of-Each v handed ss k)
    | inr c ↦ rw c (sessions_of-Each v handed ss k)
  ]

  if-Each :
      (b : Bool) (ds : List Delivery)
      → (b ≡ true → Each Withheld ds)
      → Each Withheld (if b then ds else [])
  if-Each true ds k = k refl
  if-Each false ds k = tt

  deliver-Each :
      (v : ℤ) (x : Users × Option VisibilitySnapshot) (ss : List NodeSession) (handed : Handed)
      → Found taken v x
      → Closed taken ((deliver x (sessions_of v ss) v taken.guild_id taken.channel_id handed).0)
        × Each Withheld ((deliver x (sessions_of v ss) v taken.guild_id taken.channel_id handed).1)
  unfolding deliver dispatch_visibility_reconcile
  deliver-Each v (users, none) ss handed f = (
    reconcile-Closed taken users v f,
    if-Each ((mark_reconcile users v taken.guild_id).1)
        (dispatch_sessions (sessions_of v ss) (reconcile taken.guild_id taken.channel_id))
        (λ b. sessions_of-Each v (reconcile taken.guild_id taken.channel_id) ss (λ i. refl)),
  )
  deliver-Each v (users, some s) ss handed (h, k) = (
    h,
    if-Each (contains s taken.channel_id) (dispatch_sessions (sessions_of v ss) handed)
        (λ b. sessions_of-Each v handed ss (λ i. absurd (both b (k i)))),
  )
    where
      both : {x : Bool} → x ≡ true → x ≡ false → ⊥
      both e f = cc

  append-Each :
      (ds es : List Delivery) → Each Withheld ds → Each Withheld es → Each Withheld (ds ++ es)
  append-Each [] es a b = b
  append-Each (d ∷ ds) es a b = (a.0, append-Each ds es (a.1) b)

  -- A message of a channel is handed to no session of a user from whom it was taken away: if the
  -- node asks for the access revision of that or a later one and holds no snapshot with the
  -- channel; if every snapshot that the guild service answers for the user from that revision on
  -- is without it; if a reload that the dispatch joins for the user began after the node asked for
  -- such a revision; and if meanwhile no session of the user ends and the guild is not removed,
  -- whatever else other goroutines retain, invalidate, install and reconcile; then the user's
  -- sessions get no message in the dispatch, whatever the other users may see and whichever loads
  -- fail; and the node still holds no snapshot with the channel after it.
  pub revoked_gets_nothing :
      (calls : ℤ → Ensure) (users : List ℤ) (sessions : List NodeSession) (handed : Handed)
      (known : Users)
      → Closed taken known
      → ((v : ℤ) → LawfulCall taken v (calls v))
      → Closed taken (
          (dispatch_visible_guild_channel calls users sessions taken.guild_id taken.channel_id
            handed known).0)
        × Each Withheld (
            (dispatch_visible_guild_channel calls users sessions taken.guild_id taken.channel_id
              handed known).1)
  unfolding dispatch_visible_guild_channel
  revoked_gets_nothing calls [] sessions handed known h a = (h, tt)
  revoked_gets_nothing calls (v ∷ vs) sessions handed known h a =
      let found = ensure_visibility_snapshot (calls v) v taken.guild_id known in
      let one = deliver found (sessions_of v sessions) v taken.guild_id taken.channel_id handed in
      let (c, w) =
        deliver-Each v found sessions handed (ensure-Found taken v (calls v) known (a v) h) in
      let (d, x) = revoked_gets_nothing calls vs sessions handed (one.0) c a in
      (
        d,
        append-Each (one.1)
            ((dispatch_visible_guild_channel calls vs sessions taken.guild_id taken.channel_id
              handed (one.0)).1)
            w x,
      )
