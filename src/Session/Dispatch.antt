-- ===== src/Session/Dispatch.antt =====
-- services/session/v1/internal/server: DispatchGuildMessageEvent and dispatchVisibleGuildChannel of
-- dispatch.go, with the reload of a snapshot in visibility.go (ensureVisibilitySnapshot,
-- reloadVisibilitySnapshot). What a session does with an event is Session/Logical's; here an event is
-- handed to it. The guild service and the JSON library are parameters: the answers of the loads are
-- given, with what other goroutines do to the snapshots in between (the operations of
-- Session/Visibility/Revisions). Of the singleflight group of the reloads a caller is told whether its
-- call flies or joins a flight, whose result it then takes as it comes.
pub mod Others
pub mod Reloading
pub mod Viewers
pub mod Sequence
pub mod Examples
use cordis.Common.{
  ℕ, ◌+◌, ◌*◌, ◌^◌, Bool, true, false, not, ◌&&◌, ◌||◌, ◌==◌, string_eq, nat_eq, Option, none, some,
  List, [], ◌∷◌, ◌++◌, map, take, if◌then◌else◌, String,
}
use cordis.Common.Int.{ℤ, pos, int_eq, int_leb}
use cordis.Common.Action.{Result, ok, err}
use cordis.Session.Dedup.{DedupStore, check_and_add}
use cordis.Session.Watermark.{WatermarkStore, WatermarkKey, accept}
use cordis.Session.Visibility.{
  VisibilitySnapshot, Users, snapshot_for, reload_target, install, mark_reconcile,
}
use cordis.Session.Visibility.Revisions.{Op, after}

-- A session of the node that is on the guild's list.
pub record NodeSession : Type 0 where
  pub user_id : ℤ
  pub session_id : String

pub data Handed : Type 0 where
  message : (event_type payload : String) → Handed
  reconcile : (guild_id channel_id : ℤ) → Handed

pub record Delivery : Type 0 where
  pub session : NodeSession
  pub handed : Handed

-- A load of a snapshot from the guild service, `none` where it fails or is refused as invalid.
pub record Load : Type 0 where
  pub answer : Option VisibilitySnapshot
  pub meanwhile : List Op

-- What `visibilityReloads.DoChan` and the `select` after it make of a call. `own` is the caller's reload,
-- with what happens until the semaphore is acquired; it has no load if the semaphore is not. `joined` is
-- the result of a reload that another caller began, or `none` if that fails or the caller's time is up
-- before its result (that of its own reload too), with what happens until then.
pub data Reload : Type 0 where
  own : (waiting : List Op) (loads : List Load) → Reload
  joined : (waiting : List Op) (result : Option VisibilitySnapshot) → Reload

-- A call of `ensureVisibilitySnapshot`, with what other goroutines do before its critical section.
pub record Ensure : Type 0 where
  pub earlier : List Op
  pub reload : Reload

abbrev pub is_among : List ℤ → ℤ → Bool
is_among [] c = false
is_among (x ∷ xs) c = x == c || is_among xs c

-- The channels are sorted, so the binary search finds what is there.
abbrev pub contains : VisibilitySnapshot → ℤ → Bool
contains s c = is_among s.channel_ids c

-- After its install a reload ends with the snapshot, or goes on to the next round.
abbrev pub installed :
    Users × Bool
    → VisibilitySnapshot
    → Users × Option VisibilitySnapshot
    → Users × Option VisibilitySnapshot
installed (users, true) candidate next = (users, some candidate)
installed (users, false) candidate next = next

-- What the load brought is refused if it is older than what the entry asked for.
unfoldable pub try_candidate :
    ℕ
    → ℤ
    → Option VisibilitySnapshot
    → Users
    → ℤ
    → ℤ
    → (Users → Users × Option VisibilitySnapshot)
    → Users × Option VisibilitySnapshot
unfolding install
try_candidate generation required_revision none users user_id guild_id next = (users, none)
try_candidate generation required_revision (some candidate) users user_id guild_id next =
    let tried = install users user_id guild_id generation candidate in
    if int_leb required_revision candidate.access_revision
    then installed tried candidate (next (tried.0))
    else (users, none)

unfoldable pub try_load :
    Option (ℕ × ℤ)
    → Load
    → Users
    → ℤ
    → ℤ
    → (Users → Users × Option VisibilitySnapshot)
    → Users × Option VisibilitySnapshot
unfolding try_candidate after
try_load none l users user_id guild_id next = (users, none)
try_load (some (generation, required_revision)) l users user_id guild_id next =
    try_candidate generation required_revision l.answer (after users l.meanwhile) user_id guild_id
      next

-- One round of the loop for each load.
unfoldable pub reload_visibility_snapshot :
    List Load → ℤ → ℤ → Users → Users × Option VisibilitySnapshot
unfolding reload_target try_load
reload_visibility_snapshot [] user_id guild_id users = (users, none)
reload_visibility_snapshot (l ∷ ls) user_id guild_id users =
    try_load (reload_target users user_id guild_id) l users user_id guild_id
      (reload_visibility_snapshot ls user_id guild_id)

abbrev pub or_reload :
    Option VisibilitySnapshot
    → Users
    → Users × Option VisibilitySnapshot
    → Users × Option VisibilitySnapshot
or_reload (some s) users reloaded = (users, some s)
or_reload none users reloaded = reloaded

-- A reload makes two rounds at most, `for range 2`.
unfoldable pub reload_result : Reload → ℤ → ℤ → Users → Users × Option VisibilitySnapshot
unfolding reload_visibility_snapshot after
reload_result (own waiting loads) user_id guild_id users =
    reload_visibility_snapshot (take 2 loads) user_id guild_id (after users waiting)
reload_result (joined waiting result) user_id guild_id users = (after users waiting, result)

unfoldable pub ensure_visibility_snapshot :
    Ensure → ℤ → ℤ → Users → Users × Option VisibilitySnapshot
unfolding snapshot_for reload_result after
ensure_visibility_snapshot call user_id guild_id users =
    let now = after users call.earlier in
    or_reload (snapshot_for now user_id guild_id) now
      (reload_result call.reload user_id guild_id now)

abbrev pub sessions_of : ℤ → List NodeSession → List NodeSession
sessions_of user_id [] = []
sessions_of user_id (s ∷ ss) =
    let rest = sessions_of user_id ss in if s.user_id == user_id then s ∷ rest else rest

abbrev pub dispatch_sessions : List NodeSession → Handed → List Delivery
dispatch_sessions sessions handed = map (λ s. record { session = s; handed = handed }) sessions

unfoldable pub dispatch_visibility_reconcile :
    List NodeSession → ℤ → ℤ → ℤ → Users → Users × List Delivery
unfolding mark_reconcile
dispatch_visibility_reconcile sessions user_id guild_id channel_id users =
    let (marked, is_first) = mark_reconcile users user_id guild_id in
    (marked, if is_first then dispatch_sessions sessions (reconcile guild_id channel_id) else [])

-- What is known of the user's visibility decides.
unfoldable pub deliver :
    Users × Option VisibilitySnapshot
    → List NodeSession
    → ℤ
    → ℤ
    → ℤ
    → Handed
    → Users × List Delivery
unfolding dispatch_visibility_reconcile
deliver (users, none) sessions user_id guild_id channel_id handed =
    dispatch_visibility_reconcile sessions user_id guild_id channel_id users
deliver (users, some s) sessions user_id guild_id channel_id handed =
    (users, if contains s channel_id then dispatch_sessions sessions handed else [])

-- `users` is the order in which the map of the users is ranged over.
unfoldable pub dispatch_visible_guild_channel :
    (ℤ → Ensure) → List ℤ → List NodeSession → ℤ → ℤ → Handed → Users → Users × List Delivery
unfolding ensure_visibility_snapshot deliver
dispatch_visible_guild_channel calls [] sessions guild_id channel_id handed known = (known, [])
dispatch_visible_guild_channel calls (u ∷ us) sessions guild_id channel_id handed known =
    let (current, ds) =
      deliver (ensure_visibility_snapshot (calls u) u guild_id known) (sessions_of u sessions) u
        guild_id channel_id handed in
    let (last, rest) =
      dispatch_visible_guild_channel calls us sessions guild_id channel_id handed current in
    (last, ds ++ rest)

pub record Node : Type 0 where
  pub dedup : DedupStore
  pub watermarks : WatermarkStore
  pub known : Users

pub record MessageRequest : Type 0 where
  pub guild_id : ℤ
  pub channel_id : ℤ
  pub event_type : String
  pub json_payload : String
  pub idempotency_key : ℤ
  pub stream_sequence : ℤ

pub data DispatchError : Type 0 where
  guild_id_required channel_id_required type_required payload_invalid type_invalid key_required :
      DispatchError

-- `strings.TrimSpace` and `json.Valid`.
pub record Text : Type 0 where
  pub is_space : String → Bool
  pub is_json : String → Bool

abbrev pub payload_of : String → String
payload_of p = if p == "" then "{}" else p

abbrev pub is_message_event : String → Bool
is_message_event t = t == "message.created" || (t == "message.updated" || t == "message.deleted")

abbrev pub refusal : Text → MessageRequest → Option DispatchError
refusal t r =
    if int_leb r.guild_id (pos 0)
    then some guild_id_required
    else if int_leb r.channel_id (pos 0)
    then some channel_id_required
    else if t.is_space r.event_type
    then some type_required
    else if not (t.is_json (payload_of r.json_payload))
    then some payload_invalid
    else if not (is_message_event r.event_type)
    then some type_invalid
    else if int_leb r.idempotency_key (pos 0)
    then some key_required
    else none

-- Two minutes, and the number of the route's kind.
abbrev pub dedup_ttl : ℕ
dedup_ttl = 120 * 10 ^ 9

abbrev pub route_kind_guild_msg : ℕ
route_kind_guild_msg = 2

abbrev pub watermark_key : MessageRequest → WatermarkKey
watermark_key r = record {
  route_kind = route_kind_guild_msg;
  route_id = r.guild_id;
  channel_id = r.channel_id;
}

abbrev pub unless_old : Bool → Bool → Node → Node → Node × List Delivery → Node × List Delivery
unless_old false is_ahead repeated stale delivered = (repeated, [])
unless_old true false repeated stale delivered = (stale, [])
unless_old true true repeated stale delivered = delivered

-- The handler after its checks: a repeated event and a stale one are answered without a delivery.
unfoldable pub dispatch_new :
    (String → ℕ)
    → ℕ
    → MessageRequest
    → (ℤ → Ensure)
    → List ℤ
    → List NodeSession
    → Node
    → Node × List Delivery
unfolding check_and_add accept dispatch_visible_guild_channel
dispatch_new hash now r calls users sessions n =
    let (dedup, is_new) =
      check_and_add hash n.dedup now route_kind_guild_msg r.guild_id r.idempotency_key r.event_type
        dedup_ttl in
    let (watermarks, is_ahead) = accept n.watermarks now (watermark_key r) r.stream_sequence in
    let (known, ds) =
      dispatch_visible_guild_channel calls users sessions r.guild_id r.channel_id
        (message r.event_type (payload_of r.json_payload)) n.known in
    unless_old is_new is_ahead (record n { dedup = dedup })
      (record n { dedup = dedup; watermarks = watermarks })
      (record { dedup = dedup; watermarks = watermarks; known = known }, ds)

abbrev pub or_refuse :
    Option DispatchError → Node → Node × List Delivery → Result DispatchError (List Delivery) × Node
or_refuse (some e) n next = (err e, n)
or_refuse none n (answered, ds) = (ok ds, answered)

unfoldable pub dispatch_guild_message_event :
    Text
    → (String → ℕ)
    → ℕ
    → MessageRequest
    → (ℤ → Ensure)
    → List ℤ
    → List NodeSession
    → Node
    → Result DispatchError (List Delivery) × Node
unfolding dispatch_new
dispatch_guild_message_event t hash now r calls users sessions n =
    or_refuse (refusal t r) n (dispatch_new hash now r calls users sessions n)
