-- ===== src/Presence/Late.antt =====
-- A handler of presence.go that outlives its lock fails.
use cordis.Common.{
  ℕ, ◌≡◌, Bool, true, false, not, ◌==◌, nat_eq, string_eq, Option, none, some, List, String,
}
use cordis.Common.Int.{ℤ, pos, int_eq, int_leb}
use cordis.Common.Action.{give, gets, fail_if, or_fail}
use cordis.Common.Triple.{Triple, bind}
use cordis.Presence.{
  online, UserSession, Error, Tx, lock_expired, user_id_required, session_id_required,
  gateway_id_required, generation_required, status_invalid, client_state_invalid, update_empty,
}
use cordis.Presence.Transitions.{has_expired, release, with_user_mutation}
use cordis.Presence.Server.{
  SessionRequest, UpdateRequest, is_client_state, is_empty_update, proto_status_to_store,
  initial_of, requested_status, client_state_of, validate_user_session_request,
  register_user_session, refresh_user_session, update_user_presence, remove_user_session,
  resolve_user,
}
use cordis.Presence.Expiry.{
  Lapsed, Lapses, call-Lapses, give-Lapses, fail-Lapses, ensure-Lapses, resolve-Lapses,
  write_session-Lapses, reconcile-Lapses, reconcile_and_publish-Lapses, choose_status-Lapses,
  update_live-Lapses,
}

-- The lock is lapsed, and there is no answer.
abbrev pub Fails : {A : Type 0} → Tx A → Type 0
Fails {A = A} m = Triple Lapsed Lapsed m (λ (a : A) w. ⊥)

release-Fails : Fails release
unfolding release
release-Fails = bind Lapsed call-Lapses (λ u. bind Lapsed expired refuse)
  where
    expired :
        Triple {E = Error} Lapsed Lapsed
          (gets (λ w. has_expired w.lock))
          (λ b w. (b ≡ true) × Lapsed w)
    expired = record { holds = λ w h. (h, h) }

    refuse :
        (b : Bool)
        → Triple {E = Error} Lapsed (λ w. (b ≡ true) × Lapsed w) (fail_if b lock_expired) (λ u w. ⊥)
    refuse true = record { holds = λ w h. h.1 }
    refuse false = record { holds = λ w h. absurd (cc) }

pub give-Fails : {A : Type 0} (a : A) → Triple {E = Error} Lapsed (λ w. ⊥) (give a) (λ b w. ⊥)
give-Fails a = record { holds = λ w f. absurd f }

mutation-Fails : {A : Type 0} (m : Tx A) → Lapses m → Fails (with_user_mutation m)
unfolding with_user_mutation
mutation-Fails m h =
    bind Lapsed call-Lapses
      (λ u. bind Lapsed h (λ a. bind Lapsed release-Fails (λ u. give-Fails a)))

fail_if-Lapses : (b : Bool) (e : Error) → Lapses (fail_if b e)
fail_if-Lapses true e = record { holds = λ w h. h }
fail_if-Lapses false e = record { holds = λ w h. h }

or_fail-Lapses : {A : Type 0} (o : Option A) (e : Error) → Lapses (or_fail o e)
or_fail-Lapses none e = fail-Lapses e
or_fail-Lapses (some a) e = give-Lapses a

validate-Lapses : (r : SessionRequest) → Lapses (validate_user_session_request r)
unfolding validate_user_session_request
validate-Lapses r = bind Lapsed (fail_if-Lapses (r.user_id == pos 0) user_id_required) (λ u.
    bind Lapsed (fail_if-Lapses (r.session_id == "") session_id_required) (λ u.
      bind Lapsed (fail_if-Lapses (r.gateway_id == "") gateway_id_required) (λ u.
        bind Lapsed (fail_if-Lapses (r.generation == "") generation_required)
          (λ u. fail_if-Lapses (not (is_client_state r.client_state)) client_state_invalid))))

initial_of-Lapses : (o : Option ℕ) → Lapses (initial_of o)
initial_of-Lapses none = give-Lapses online
initial_of-Lapses (some n) = or_fail-Lapses (proto_status_to_store n) status_invalid

requested_status-Lapses : (o : Option ℕ) → Lapses (requested_status o)
requested_status-Lapses none = give-Lapses none
requested_status-Lapses (some n) =
    bind Lapsed (or_fail-Lapses (proto_status_to_store n) status_invalid)
      (λ s. give-Lapses (some s))

client_state_of-Lapses : (o : Option ℕ) → Lapses (client_state_of o)
client_state_of-Lapses none = give-Lapses tt
client_state_of-Lapses (some n) = fail_if-Lapses (not (is_client_state n)) client_state_invalid

pub register-Fails :
    (r : SessionRequest) (ss : List UserSession) → Fails (register_user_session r ss)
unfolding register_user_session
register-Fails r ss = bind Lapsed (validate-Lapses r) (λ u.
    bind Lapsed (initial_of-Lapses r.initial_status) (λ status. mutation-Fails _ (
      bind Lapsed (ensure-Lapses status) (λ v. bind Lapsed (write_session-Lapses ss) (λ live.
        bind Lapsed (reconcile_and_publish-Lapses r.guild_ids live)
          (λ p. give-Lapses (record { presence = p; preference = some v })))))))

pub refresh-Fails : (r : SessionRequest) (ss : List UserSession) → Fails (refresh_user_session r ss)
unfolding refresh_user_session
refresh-Fails r ss = bind Lapsed (validate-Lapses r) (λ u. mutation-Fails _ (
    bind Lapsed (ensure-Lapses online) (λ v. bind Lapsed (write_session-Lapses ss) (λ live.
      bind Lapsed (reconcile_and_publish-Lapses r.guild_ids live)
        (λ p. give-Lapses (record { presence = p; preference = none }))))))

pub update-Fails : (r : UpdateRequest) (ss : List UserSession) → Fails (update_user_presence r ss)
unfolding update_user_presence
update-Fails r ss = bind Lapsed (fail_if-Lapses (r.user_id == pos 0) user_id_required) (λ u.
    bind Lapsed (fail_if-Lapses (r.session_id == "") session_id_required) (λ u.
      bind Lapsed (fail_if-Lapses (is_empty_update r) update_empty) (λ u.
        bind Lapsed (requested_status-Lapses r.status) (λ status.
          bind Lapsed (client_state_of-Lapses r.client_state) (λ u. mutation-Fails _ (
            bind Lapsed (ensure-Lapses online) (λ known.
              bind Lapsed (choose_status-Lapses status known) (λ v.
                bind Lapsed (update_live-Lapses r.client_state ss) (λ live.
                  bind Lapsed (reconcile_and_publish-Lapses r.guild_ids live)
                    (λ p. give-Lapses (record { presence = p; preference = some v })))))))))))

pub remove-Fails :
    (user_id : ℤ) (session_id : String) (guild_ids : List ℤ) (ss : List UserSession)
    → Fails (remove_user_session user_id session_id guild_ids ss)
unfolding remove_user_session
remove-Fails user_id session_id guild_ids ss =
    bind Lapsed (fail_if-Lapses (user_id == pos 0) user_id_required) (λ u.
      bind Lapsed (fail_if-Lapses (session_id == "") session_id_required) (λ u. mutation-Fails _ (
        bind Lapsed call-Lapses (λ u. bind Lapsed (resolve-Lapses ss) (λ live.
          bind Lapsed (reconcile_and_publish-Lapses guild_ids live) (λ p. give-Lapses tt))))))

pub resolve_user-Fails : (user_id : ℤ) (ss : List UserSession) → Fails (resolve_user user_id ss)
unfolding resolve_user
resolve_user-Fails user_id ss =
    bind Lapsed (fail_if-Lapses (int_leb user_id (pos 0)) user_id_required) (λ u. mutation-Fails _ (
      bind Lapsed (resolve-Lapses ss) (λ live.
        bind Lapsed (reconcile-Lapses live)
          (λ x. give-Lapses (record { presence = (x.0).public; preference = none })))))
