-- ===== src/Presence/Server.antt =====
-- The handlers of presence.go for one user.
use cordis.Common.{
  ℕ, Bool, true, false, not, ◌&&◌, ◌||◌, ◌==◌, nat_eq, string_eq, Option, none, some, List,
  if◌then◌else◌, String,
}
use cordis.Common.Int.{ℤ, pos, int_eq, int_leb}
use cordis.Common.Action.{◌>>=◌, ◌>>◌, give, fail_if, or_fail}
use cordis.Presence.{
  PresenceStatus, online, idle, dnd, invisible, status_code, Versioned, UserSession, Response,
  preference_updated, Tx, Live, user_id_required, session_id_required, gateway_id_required,
  generation_required, status_invalid, client_state_invalid, update_empty, call, publish,
  save_user_presence_preference, resolve_user_presence, write_user_session,
}
use cordis.Presence.Transitions.{
  with_user_mutation, next_version, ensure_user_presence_preference, reconcile_user_presence,
  reconcile_and_publish,
}

-- A session's call; a status and a client state are the numbers of the protocol.
pub record SessionRequest : Type 0 where
  pub user_id : ℤ
  pub session_id : String
  pub gateway_id : String
  pub generation : String
  pub client_state : ℕ
  pub initial_status : Option ℕ
  pub guild_ids : List ℤ

pub record UpdateRequest : Type 0 where
  pub user_id : ℤ
  pub session_id : String
  pub status : Option ℕ
  pub client_state : Option ℕ
  pub guild_ids : List ℤ

abbrev pub proto_status_to_store : ℕ → Option PresenceStatus
proto_status_to_store n =
    if n == 2
    then some online
    else if n == 3
    then some idle
    else if n == 4
    then some dnd
    else if n == 5
    then some invisible
    else none

abbrev pub is_unset : Option ℕ → Bool
is_unset none = true
is_unset (some n) = false

abbrev pub is_client_state : ℕ → Bool
is_client_state n = n == 1 || n == 2

unfoldable pub validate_user_session_request : SessionRequest → Tx (Unit {0})
validate_user_session_request r = do
  fail_if (r.user_id == pos 0) user_id_required
  fail_if (r.session_id == "") session_id_required
  fail_if (r.gateway_id == "") gateway_id_required
  fail_if (r.generation == "") generation_required
  fail_if (not (is_client_state r.client_state)) client_state_invalid

abbrev pub initial_of : Option ℕ → Tx PresenceStatus
initial_of none = give online
initial_of (some n) = or_fail (proto_status_to_store n) status_invalid

unfoldable pub register_user_session : SessionRequest → List UserSession → Tx Response
unfolding validate_user_session_request with_user_mutation ensure_user_presence_preference
    write_user_session reconcile_and_publish
register_user_session r sessions = do
  validate_user_session_request r
  initial_status ← initial_of r.initial_status
  with_user_mutation (do
    preference ← ensure_user_presence_preference initial_status
    live ← write_user_session sessions
    presence ← reconcile_and_publish r.guild_ids live
    give (record { presence = presence; preference = some preference }))

unfoldable pub refresh_user_session : SessionRequest → List UserSession → Tx Response
unfolding validate_user_session_request with_user_mutation ensure_user_presence_preference
    write_user_session reconcile_and_publish
refresh_user_session r sessions = do
  validate_user_session_request r
  with_user_mutation (do
    ensure_user_presence_preference online
    live ← write_user_session sessions
    presence ← reconcile_and_publish r.guild_ids live
    give (record { presence = presence; preference = none }))

abbrev pub requested_status : Option ℕ → Tx (Option PresenceStatus)
requested_status none = give none
requested_status (some n) = do
  status ← or_fail (proto_status_to_store n) status_invalid
  give (some status)

abbrev pub client_state_of : Option ℕ → Tx (Unit {0})
client_state_of none = give tt
client_state_of (some n) = fail_if (not (is_client_state n)) client_state_invalid

abbrev pub is_empty_update : UpdateRequest → Bool
is_empty_update r = is_unset r.status && is_unset r.client_state

unfoldable pub save_and_publish : Versioned → Tx Versioned
unfolding save_user_presence_preference publish
save_and_publish preference = do
  save_user_presence_preference preference
  publish (preference_updated preference)
  give preference

unfoldable pub choose_status : Option PresenceStatus → Versioned → Tx Versioned
unfolding next_version save_and_publish
choose_status none preference = give preference
choose_status (some status) preference =
    if status_code preference.status == status_code status then give preference else do
      version ← next_version preference.version
      save_and_publish (record { status = status; version = version })

-- The write of a client state, if one is given, and what is live then.
unfoldable pub update_live : Option ℕ → List UserSession → Tx Live
unfolding write_user_session resolve_user_presence
update_live none sessions = resolve_user_presence sessions
update_live (some client_state) sessions = write_user_session sessions

unfoldable pub update_user_presence : UpdateRequest → List UserSession → Tx Response
unfolding with_user_mutation ensure_user_presence_preference choose_status update_live
    reconcile_and_publish
update_user_presence r sessions = do
  fail_if (r.user_id == pos 0) user_id_required
  fail_if (r.session_id == "") session_id_required
  fail_if (is_empty_update r) update_empty
  status ← requested_status r.status
  client_state_of r.client_state
  with_user_mutation (do
    known ← ensure_user_presence_preference online
    preference ← choose_status status known
    live ← update_live r.client_state sessions
    presence ← reconcile_and_publish r.guild_ids live
    give (record { presence = presence; preference = some preference }))

unfoldable pub remove_user_session : ℤ → String → List ℤ → List UserSession → Tx (Unit {0})
unfolding with_user_mutation call resolve_user_presence reconcile_and_publish
remove_user_session user_id session_id guild_ids sessions = do
  fail_if (user_id == pos 0) user_id_required
  fail_if (session_id == "") session_id_required
  with_user_mutation (do
    call
    live ← resolve_user_presence sessions
    reconcile_and_publish guild_ids live
    give tt)

-- What `ResolveUsersPresence` does for one of its users; the loop over them, which asks for the lock of
-- each in turn, is left out.
unfoldable pub resolve_user : ℤ → List UserSession → Tx Response
unfolding with_user_mutation resolve_user_presence reconcile_user_presence
resolve_user user_id sessions = do
  fail_if (int_leb user_id (pos 0)) user_id_required
  with_user_mutation (do
    live ← resolve_user_presence sessions
    (s, changed) ← reconcile_user_presence live
    give (record { presence = s.public; preference = none }))
