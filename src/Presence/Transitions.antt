-- ===== src/Presence/Transitions.antt =====
-- The rows of presence.go under the user's lock: new versions, the preference's row, and the
-- reconciliation of the snapshot with what is live, with the transitions that it publishes.
use cordis.Common.{
  ℕ, ◌+◌, ◌-◌, ◌^◌, Bool, true, false, not, ◌&&◌, ◌||◌, ◌==◌, nat_eq, string_eq, Option, none, some,
  List, ltb, if◌then◌else◌,
}
use cordis.Common.Int.{ℤ, int_eq}
use cordis.Common.Action.{◌>>=◌, ◌>>◌, give, gets, fail, fail_if}
use cordis.Presence.{
  PresenceStatus, status_code, Versioned, Snapshot, presence_updated, Tx, Live, Lock, held, expires,
  version_exhausted, lock_expired, call, publish, generate, get_user_presence_preference,
  get_user_presence_snapshot, save_user_presence_preference, save_user_presence_snapshot,
}

abbrev pub has_expired : Lock → Bool
has_expired held = false
has_expired (expires others) = true

-- The answer of the script that gives the lock back, if it is still the handler's.
unfoldable pub release : Tx (Unit {0})
unfolding call
release = do call; expired ← gets (λ w. has_expired w.lock); fail_if expired lock_expired

-- The lock is taken before and given back after; a failure of either is the answer. Handlers that wait
-- for the lock come later in a run.
unfoldable pub with_user_mutation : {A : Type 0} → Tx A → Tx A
unfolding call release
with_user_mutation m = do call; a ← m; release; give a

unfoldable pub next_version : ℕ → Tx ℕ
unfolding generate
next_version previous = do
  version ← generate
  if ltb previous version
      then give version
      else if previous == 2 ^ 63 - 1
      then fail version_exhausted
      else give (previous + 1)

unfoldable pub new_preference : PresenceStatus → Tx Versioned
unfolding next_version save_user_presence_preference
new_preference initial_status = do
  version ← next_version 0
  save_user_presence_preference (record { status = initial_status; version = version })
  give (record { status = initial_status; version = version })

unfoldable pub or_new_preference : PresenceStatus → Option Versioned → Tx Versioned
unfolding new_preference
or_new_preference initial_status none = new_preference initial_status
or_new_preference initial_status (some preference) = give preference

unfoldable pub ensure_user_presence_preference : PresenceStatus → Tx Versioned
unfolding get_user_presence_preference or_new_preference
ensure_user_presence_preference initial_status =
    get_user_presence_preference >>= or_new_preference initial_status

abbrev pub seen_at : Option Snapshot → Live → ℕ
seen_at none live = live.last_seen_at
seen_at (some previous) live =
    if status_code live.status == 1 && live.last_seen_at == 0
    then previous.last_seen_at
    else live.last_seen_at

abbrev pub is_changed : Option Snapshot → Live → Bool
is_changed none live = true
is_changed (some previous) live =
    not (status_code previous.public.status == status_code live.status)

abbrev pub version_of : Option Snapshot → ℕ
version_of none = 0
version_of (some previous) = previous.public.version

abbrev pub is_saved : Option Snapshot → ℕ → Bool
is_saved none last_seen_at = true
is_saved (some previous) last_seen_at = not (previous.last_seen_at == last_seen_at)

unfoldable pub save_if : Bool → Snapshot → Tx (Unit {0})
unfolding save_user_presence_snapshot
save_if true s = save_user_presence_snapshot s
save_if false s = give tt

unfoldable pub reconcile_with : Live → Option Snapshot → Tx (Snapshot × Bool)
unfolding next_version save_if
reconcile_with live previous = do
  let changed = is_changed previous live
  let seen = seen_at previous live
  version ← if changed then next_version (version_of previous) else give (version_of previous)
  save_if (changed || is_saved previous seen)
      (record { public = record { status = live.status; version = version }; last_seen_at = seen })
  give (
    record { public = record { status = live.status; version = version }; last_seen_at = seen },
    changed,
  )

unfoldable pub reconcile_user_presence : Live → Tx (Snapshot × Bool)
unfolding get_user_presence_snapshot reconcile_with
reconcile_user_presence live = get_user_presence_snapshot >>= reconcile_with live

unfoldable pub publish_transition : Bool → Versioned → List ℤ → Tx (Unit {0})
unfolding publish
publish_transition true v guild_ids = publish (presence_updated v guild_ids)
publish_transition false v guild_ids = give tt

unfoldable pub reconcile_and_publish : List ℤ → Live → Tx Versioned
unfolding reconcile_user_presence publish_transition
reconcile_and_publish guild_ids live = do
  (s, changed) ← reconcile_user_presence live
  publish_transition changed s.public guild_ids
  give s.public
