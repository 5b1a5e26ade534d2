-- ===== src/Presence.antt =====
-- services/presence/v1/internal/server (presence.go, events.go), with what internal/store/redis.go reads
-- from its rows: the presence of one user; all rows and events are this user's. `WithUserMutation` makes
-- the handlers for a user take turns while its lock lasts. When a handler outlives its lock, others
-- change the rows and publish between its calls, and the handler goes on. Redis, Kafka and the snowflake
-- node are parameters: the outcome of each call of them, whether the lock lasts and what others do when
-- it does not, the sessions that are live, and the numbers generated are given.
pub mod Transitions
pub mod Server
pub mod History
pub mod Calls
pub mod Reconcile
pub mod Preferences
pub mod Handlers
pub mod Expiry
pub mod Late
pub mod Run
pub mod Examples
use cordis.Common.{
  ℕ, ◌+◌, ◌-◌, ◌^◌, Bool, true, false, not, ◌&&◌, ◌||◌, ◌==◌, nat_eq, Option, none, some, List, [],
  ◌∷◌, ◌++◌, max, ltb, if◌then◌else◌, String,
}
use cordis.Common.Int.{ℤ}
use cordis.Common.Action.{Action, Result, ok, err, ◌>>=◌, ◌>>◌, give, fail, gets, modify}

pub data PresenceStatus : Type 0 where
  offline online idle dnd invisible : PresenceStatus

abbrev pub status_code : PresenceStatus → ℕ
status_code offline = 1
status_code online = 2
status_code idle = 3
status_code dnd = 4
status_code invisible = 5

-- A preference, or the public part of a snapshot.
pub record Versioned : Type 0 where
  pub status : PresenceStatus
  pub version : ℕ

pub record Snapshot : Type 0 where
  pub public : Versioned
  pub last_seen_at : ℕ

pub record UserSession : Type 0 where
  pub session_id : String
  pub last_seen_at : ℕ

-- The presence that a handler answers with, and the preference where it has one.
pub record Response : Type 0 where
  pub presence : Versioned
  pub preference : Option Versioned

pub data Output : Type 0 where
  presence_updated : Versioned → List ℤ → Output
  preference_updated : Versioned → Output
  responded : Response → Output

-- A call that fails may have had its effect, by then or never.
pub data Outcome : Type 0 where
  done lost unsure : Outcome

-- What others leave when they have the lock in the meantime: the rows, and what they put out.
pub record Others : Type 0 where
  pub preference : Option Versioned
  pub snapshot : Option Snapshot
  pub outputs : List Output

-- The lock of a handler: it is held until it is released, or it expires before that, with what others do
-- before each of the calls that follow.
pub data Lock : Type 0 where
  held : Lock
  expires : List (Option Others) → Lock

-- `outputs` is what others see of the user, the newest first. `outcomes` and `generated` are what is to
-- come from the libraries.
pub record World : Type 0 where
  pub preference : Option Versioned
  pub snapshot : Option Snapshot
  pub outputs : List Output
  pub outcomes : List Outcome
  pub generated : List ℕ
  pub has_publisher : Bool
  pub lock : Lock

pub data Error : Type 0 where
  user_id_required session_id_required gateway_id_required generation_required : Error
  status_invalid client_state_invalid update_empty version_exhausted store_failed lock_expired :
      Error

abbrev pub Tx : Type 0 → Type 0
Tx = Action World Error

abbrev pub first_outcome : List Outcome → Outcome
first_outcome [] = done
first_outcome (o ∷ os) = o

abbrev pub rest_of {ℓ} : {A : Type ℓ} → List A → List A
rest_of [] = []
rest_of (x ∷ xs) = xs

abbrev pub first_number : List ℕ → ℕ
first_number [] = 0
first_number (n ∷ ns) = n

abbrev pub overwritten : Option Others → World → World
overwritten none w = w
overwritten (some o) w = record w {
  preference = o.preference;
  snapshot = o.snapshot;
  outputs = o.outputs ++ w.outputs;
}

-- What has happened before a call that the handler makes now.
abbrev pub until_call : Lock → World → World
until_call held w = w
until_call (expires []) w = w
until_call (expires (o ∷ os)) w = overwritten o (record w { lock = expires os })

abbrev pub next_call : World → World
next_call w = until_call w.lock (record w { outcomes = rest_of w.outcomes })

abbrev pub settled : Outcome → (before after : World) → Result Error (Unit {0}) × World
settled done before after = (ok tt, after)
settled lost before after = (err store_failed, before)
settled unsure before after = (err store_failed, after)

-- A call that changes nothing here.
unfoldable pub call : Tx (Unit {0})
call w = settled (first_outcome w.outcomes) (next_call w) (next_call w)

unfoldable pub write : (World → World) → Tx (Unit {0})
write f w = settled (first_outcome w.outcomes) (next_call w) (f (next_call w))

-- The failure of a publication is only logged.
abbrev pub published : Outcome → (before after : World) → World
published done before after = after
published lost before after = before
published unsure before after = after

unfoldable pub publish : Output → Tx (Unit {0})
publish e w =
    let now = next_call w in
    (
      ok tt,
      if w.has_publisher
          then published (first_outcome w.outcomes) now (record now { outputs = e ∷ now.outputs })
          else w,
    )

unfoldable pub generate : Tx ℕ
generate w = (ok (first_number w.generated), record w { generated = rest_of w.generated })

abbrev pub is_preference : PresenceStatus → Bool
is_preference s = not (status_code s == 1)

abbrev pub is_public : PresenceStatus → Bool
is_public s = not (status_code s == 5)

-- A row with a status that is not of its kind, or without a version, counts as none.
abbrev pub read_preference : Option Versioned → Option Versioned
read_preference none = none
read_preference (some v) = if is_preference v.status && not (v.version == 0) then some v else none

abbrev pub read_snapshot : Option Snapshot → Option Snapshot
read_snapshot none = none
read_snapshot (some s) =
    if is_public s.public.status && not (s.public.version == 0) then some s else none

unfoldable pub get_user_presence_preference : Tx (Option Versioned)
unfolding call
get_user_presence_preference = call >> gets (λ w. read_preference w.preference)

unfoldable pub get_user_presence_snapshot : Tx (Option Snapshot)
unfolding call
get_user_presence_snapshot = call >> gets (λ w. read_snapshot w.snapshot)

unfoldable pub save_user_presence_preference : Versioned → Tx (Unit {0})
unfolding write
save_user_presence_preference v = write (λ w. record w { preference = some v })

unfoldable pub save_user_presence_snapshot : Snapshot → Tx (Unit {0})
unfolding write
save_user_presence_snapshot s = write (λ w. record w { snapshot = some s })

-- What the live sessions and the preference come to.
pub record Live : Type 0 where
  pub status : PresenceStatus
  pub last_seen_at : ℕ

abbrev pub latest_seen : List UserSession → ℕ
latest_seen [] = 0
latest_seen (s ∷ ss) = max s.last_seen_at (latest_seen ss)

abbrev pub normalize_presence_status : PresenceStatus → PresenceStatus
normalize_presence_status offline = online
normalize_presence_status status = status

abbrev pub aggregate_status : PresenceStatus → List UserSession → PresenceStatus
aggregate_status preference [] = offline
aggregate_status preference (s ∷ ss) =
    if status_code preference == 5 then offline else normalize_presence_status preference

unfoldable pub aggregate_user_presence : PresenceStatus → List UserSession → Live
aggregate_user_presence preference sessions = record {
  status = aggregate_status preference sessions;
  last_seen_at = latest_seen sessions;
}

abbrev pub preferred : Option Versioned → PresenceStatus
preferred none = online
preferred (some v) = v.status

-- `resolveUserPresence`, with the sessions that Redis holds and that are live.
unfoldable pub resolve_user_presence : List UserSession → Tx Live
unfolding call get_user_presence_preference aggregate_user_presence
resolve_user_presence sessions = do
  call
  preference ← get_user_presence_preference
  give (aggregate_user_presence (preferred preference) sessions)

-- `UpsertUserSession` and `UpdateUserSession`: the write of the session, and then the same.
unfoldable pub write_user_session : List UserSession → Tx Live
unfolding call resolve_user_presence
write_user_session sessions = call >> resolve_user_presence sessions
