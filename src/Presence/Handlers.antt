-- ===== src/Presence/Handlers.antt =====
-- Each handler of presence.go keeps the versions, and answers with what its rows hold.
use cordis.Common.{
  ℕ, ◌≡◌, refl, ◌∙◌, true, not, ◌==◌, Option, none, some, List, String, string_eq, nat_eq,
}
use cordis.Common.Int.{ℤ, pos, int_eq, int_leb}
use cordis.Common.Action.{◌>>=◌, give}
use cordis.Common.Triple.{bind}
use cordis.Presence.{
  online, Versioned, UserSession, Response, Live, Tx, is_public, aggregate_status, preferred,
  user_id_required, session_id_required, gateway_id_required, generation_required,
  client_state_invalid, update_empty,
}
use cordis.Presence.Server.{
  SessionRequest, UpdateRequest, is_client_state, is_empty_update, validate_user_session_request,
  register_user_session, refresh_user_session, client_state_of, update_live, update_user_presence,
  remove_user_session, resolve_user,
}
use cordis.Presence.Transitions.{reconcile_and_publish}
use cordis.Presence.History.{shown}
use cordis.Presence.Calls.{
  Fact, Inv, Step, call_keeps, give_keeps, fail_if_keeps, with_user_mutation_keeps,
}
use cordis.Presence.Reconcile.{
  assuming, Known, Shown, Current, resolve_keeps, write_user_session_keeps,
  reconcile_user_presence_keeps, reconcile_and_publish_keeps,
}
use cordis.Presence.Preferences.{
  Any, ensure_keeps, choose_status_keeps, initial_of_keeps, requested_status_keeps,
}

-- A preference that an answer has is the row's.
abbrev pub Told : Option Versioned → Option Versioned → Type 0
Told none p = Unit {0}
Told (some v) p = p ≡ some v

-- The answer's presence is the snapshot's, with the status that the sessions and the preference come to.
abbrev pub Reply : List UserSession → Response → Fact
Reply sessions r p s os =
    ((shown s ≡ some r.presence) × (r.presence.status ≡ aggregate_status (preferred p) sessions))
    × Told r.preference p

module _ (sessions : List UserSession) where
  -- The end of a handler that publishes and answers.
  answer_keeps :
      (F : Option Versioned → Type 0) (told : Option Versioned) (guild_ids : List ℤ) (live : Live)
      → ((p : Option Versioned) → F p → Told told p)
      → Step
          (λ p s os. (is_public live.status ≡ true) × Current F sessions live p)
          (do
            presence ← reconcile_and_publish guild_ids live
            give (record { presence = presence; preference = told }))
          (Reply sessions)
  answer_keeps F told guild_ids live k =
      let rest : Tx Response = (do
        presence ← reconcile_and_publish guild_ids live
        give (record { presence = presence; preference = told })) in
      assuming (Known (Current F sessions live)) rest (Reply sessions) (λ i.
        bind Inv (reconcile_and_publish_keeps (Current F sessions live) guild_ids live i) (λ v.
          give_keeps (Shown (Current F sessions live) live.status v) (Reply sessions)
            (record { presence = v; preference = told })
            (λ w h. (h.0, (((h.1).0.0, (h.1).0.1 ∙ (h.1).1.0), k w.preference ((h.1).1.1))))))

  validate_keeps : (r : SessionRequest) → Step Any (validate_user_session_request r) (λ u. Any)
  unfolding validate_user_session_request
  validate_keeps r = bind Inv (fail_if_keeps Any (r.user_id == pos 0) user_id_required) (λ u.
      bind Inv (fail_if_keeps Any (r.session_id == "") session_id_required) (λ u.
        bind Inv (fail_if_keeps Any (r.gateway_id == "") gateway_id_required) (λ u.
          bind Inv (fail_if_keeps Any (r.generation == "") generation_required)
            (λ u. fail_if_keeps Any (not (is_client_state r.client_state)) client_state_invalid))))

  pub register_keeps :
      (r : SessionRequest) → Step Any (register_user_session r sessions) (Reply sessions)
  unfolding register_user_session
  register_keeps r = bind Inv (validate_keeps r) (λ u.
      bind Inv (initial_of_keeps r.initial_status) (λ status. assuming Any _ (Reply sessions) (λ k.
        with_user_mutation_keeps Any _ (Reply sessions) (
          bind Inv (ensure_keeps status k) (λ v.
            bind Inv (write_user_session_keeps (λ p. p ≡ some v) sessions)
              (λ live. answer_keeps (λ p. p ≡ some v) (some v) r.guild_ids live (λ p e. e)))))))

  pub refresh_keeps :
      (r : SessionRequest) → Step Any (refresh_user_session r sessions) (Reply sessions)
  unfolding refresh_user_session
  refresh_keeps r = bind Inv (validate_keeps r) (λ u.
      with_user_mutation_keeps Any _ (Reply sessions) (
        bind Inv (ensure_keeps online refl) (λ v.
          bind Inv (write_user_session_keeps (λ p. p ≡ some v) sessions)
            (λ live. answer_keeps (λ p. p ≡ some v) none r.guild_ids live (λ p e. tt)))))

  client_state_of_keeps : (F : Fact) (o : Option ℕ) → Step F (client_state_of o) (λ u. F)
  client_state_of_keeps F none = give_keeps F (λ u. F) tt (λ w h. h)
  client_state_of_keeps F (some n) = fail_if_keeps F (not (is_client_state n)) client_state_invalid

  update_live_keeps :
      (F : Option Versioned → Type 0) (o : Option ℕ)
      → Step
          (Known F)
          (update_live o sessions)
          (λ live p s os. (is_public live.status ≡ true) × Current F sessions live p)
  unfolding update_live
  update_live_keeps F none = resolve_keeps F sessions
  update_live_keeps F (some n) = write_user_session_keeps F sessions

  pub update_keeps :
      (r : UpdateRequest) → Step Any (update_user_presence r sessions) (Reply sessions)
  unfolding update_user_presence
  update_keeps r = bind Inv (fail_if_keeps Any (r.user_id == pos 0) user_id_required) (λ u.
      bind Inv (fail_if_keeps Any (r.session_id == "") session_id_required) (λ u.
        bind Inv (fail_if_keeps Any (is_empty_update r) update_empty) (λ u.
          bind Inv (requested_status_keeps r.status) (λ status.
            assuming Any _ (Reply sessions) (λ k.
              bind Inv (client_state_of_keeps Any r.client_state) (λ u.
                with_user_mutation_keeps Any _ (Reply sessions) (
                  bind Inv (ensure_keeps online refl) (λ known.
                    bind Inv (choose_status_keeps status known k) (λ v.
                      bind Inv (update_live_keeps (λ p. p ≡ some v) r.client_state) (λ live.
                        answer_keeps (λ p. p ≡ some v) (some v) r.guild_ids live
                          (λ p e. e)))))))))))

  pub remove_keeps :
      (user_id : ℤ) (session_id : String) (guild_ids : List ℤ)
      → Step Any (remove_user_session user_id session_id guild_ids sessions) (λ u. Any)
  unfolding remove_user_session
  remove_keeps user_id session_id guild_ids =
      let F : Option Versioned → Type 0 = λ p. Unit {0} in
      bind Inv (fail_if_keeps Any (user_id == pos 0) user_id_required) (λ u.
        bind Inv (fail_if_keeps Any (session_id == "") session_id_required) (λ u.
          with_user_mutation_keeps Any _ (λ u. Any)
            (bind Inv (call_keeps Any) (λ u. bind Inv (resolve_keeps F sessions) (λ live.
              assuming (Known (Current F sessions live)) _ (λ u. Any)
                (λ i.
                  bind Inv (reconcile_and_publish_keeps (Current F sessions live) guild_ids live i)
                    (λ v.
                      give_keeps (Shown (Current F sessions live) live.status v) (λ u. Any) tt
                        (λ w h. (h.0, tt)))))))))

  pub resolve_user_keeps : (user_id : ℤ) → Step Any (resolve_user user_id sessions) (Reply sessions)
  unfolding resolve_user
  resolve_user_keeps user_id =
      let F : Option Versioned → Type 0 = λ p. Unit {0} in
      bind Inv (fail_if_keeps Any (int_leb user_id (pos 0)) user_id_required) (λ u.
        with_user_mutation_keeps Any _ (Reply sessions) (
          bind Inv (resolve_keeps F sessions) (λ live.
            assuming (Known (Current F sessions live)) _ (Reply sessions) (λ i.
              bind Inv (reconcile_user_presence_keeps (Current F sessions live) live i) (λ x.
                give_keeps (Shown (Current F sessions live) live.status ((x.0).public))
                  (Reply sessions) (record { presence = (x.0).public; preference = none })
                  (λ w h. (h.0, (((h.1).0.0, (h.1).0.1 ∙ (h.1).1.0), tt))))))))
