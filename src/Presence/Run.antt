-- ===== src/Presence/Run.antt =====
-- Runs of the handlers of presence.go, whatever calls of the libraries fail
-- and whatever numbers are generated.
use cordis.Common.{
  ℕ, ◌≤◌, ◌≡◌, refl, subst, Bool, true, not, ◌&&◌, arith, Option, none, some, List, [], ◌∷◌,
  get_elem?, String,
}
use cordis.Common.Int.{ℤ}
use cordis.Common.Action.{Result, ok, err, ◌>>=◌, ◌>>◌, give}
use cordis.Common.Triple.{Post, bind}
use cordis.Presence.{
  PresenceStatus, Versioned, UserSession, Response, Output, responded, Outcome, World, Error, Tx,
  Lock, held, expires, is_public, is_preference, aggregate_status, preferred,
}
use cordis.Presence.Transitions.{has_expired}
use cordis.Presence.Expiry.{Lapsed}
use cordis.Presence.Late.{
  Fails, give-Fails, register-Fails, refresh-Fails, update-Fails, remove-Fails, resolve_user-Fails,
}
use cordis.Presence.Server.{
  SessionRequest, UpdateRequest, register_user_session, refresh_user_session, update_user_presence,
  remove_user_session, resolve_user,
}
use cordis.Presence.History.{
  private_log, add_seen, published_presences, published_preferences, presences-Tracks,
  preferences-Tracks, Follows, Tracks, untouched, tracked, History-pairs, shown,
}
use cordis.Presence.Calls.{Fact, Inv, Holds, Step, give_keeps}
use cordis.Presence.Reconcile.{see_shown}
use cordis.Presence.Preferences.{Any, see_preference}
use cordis.Presence.Handlers.{
  Told, Reply, register_keeps, refresh_keeps, update_keeps, remove_keeps, resolve_user_keeps,
}

pub data Event : Type 0 where
  register refresh : SessionRequest → Event
  update : UpdateRequest → Event
  remove : ℤ → String → List ℤ → Event
  resolve : ℤ → Event

-- A call of a handler: the sessions that are live when it asks, what the libraries do, and whether its
-- lock lasts.
pub record Request : Type 0 where
  pub event : Event
  pub sessions : List UserSession
  pub outcomes : List Outcome
  pub generated : List ℕ
  pub has_publisher : Bool
  pub lock : Lock

unfoldable pub handle : Event → List UserSession → Tx (Option Response)
unfolding register_user_session refresh_user_session update_user_presence remove_user_session
    resolve_user
handle (register r) sessions = do response ← register_user_session r sessions; give (some response)
handle (refresh r) sessions = do response ← refresh_user_session r sessions; give (some response)
handle (update r) sessions = do response ← update_user_presence r sessions; give (some response)
handle (remove user_id session_id guild_ids) sessions = do
  remove_user_session user_id session_id guild_ids sessions
  give none
handle (resolve user_id) sessions = do
  response ← resolve_user user_id sessions
  give (some response)

abbrev pub supplied : Request → World → World
supplied q w = record w {
  outcomes = q.outcomes;
  generated = q.generated;
  has_publisher = q.has_publisher;
  lock = q.lock;
}

-- An answer is recorded when its lock is given back; the caller receives it some time later.
abbrev pub answered : Result Error (Option Response) × World → World
answered (ok none, w) = w
answered (ok (some r), w) = record w { outputs = responded r ∷ w.outputs }
answered (err e, w) = w

unfoldable pub run : List Request → World → World
unfolding handle
run [] w = w
run (q ∷ qs) w = run qs (answered (handle q.event q.sessions (supplied q w)))

-- No handler outlives its lock.
abbrev pub are_in_time : List Request → Bool
are_in_time [] = true
are_in_time (q ∷ qs) = not (has_expired q.lock) && are_in_time qs

in_time-head : (q : Request) (qs : List Request) → are_in_time (q ∷ qs) ≡ true → q.lock ≡ held
in_time-head q qs e = in_time q.lock (are_in_time qs) e
  where
    in_time : (l : Lock) (b : Bool) → (not (has_expired l) && b) ≡ true → l ≡ held
    in_time held b e = refl
    in_time (expires others) b e = absurd (cc)

in_time-tail :
    (q : Request) (qs : List Request) → are_in_time (q ∷ qs) ≡ true → are_in_time qs ≡ true
in_time-tail q qs e = ground (arith, e)

abbrev pub new_world : World
new_world = record {
  preference = none;
  snapshot = none;
  outputs = [];
  outcomes = [];
  generated = [];
  has_publisher = true;
  lock = held;
}

abbrev pub Replied : List UserSession → Option Response → Fact
Replied sessions none = Any
Replied sessions (some r) = Reply sessions r

handle_keeps :
    (e : Event) (sessions : List UserSession) → Step Any (handle e sessions) (Replied sessions)
unfolding handle
handle_keeps (register r) ss =
    bind Inv (register_keeps ss r) (λ x. give_keeps (Reply ss x) (Replied ss) (some x) (λ w h. h))
handle_keeps (refresh r) ss =
    bind Inv (refresh_keeps ss r) (λ x. give_keeps (Reply ss x) (Replied ss) (some x) (λ w h. h))
handle_keeps (update r) ss =
    bind Inv (update_keeps ss r) (λ x. give_keeps (Reply ss x) (Replied ss) (some x) (λ w h. h))
handle_keeps (remove user_id session_id guild_ids) ss =
    bind Inv (remove_keeps ss user_id session_id guild_ids)
      (λ x. give_keeps Any (Replied ss) none (λ w h. h))
handle_keeps (resolve user_id) ss =
    bind Inv (resolve_user_keeps ss user_id)
      (λ x. give_keeps (Reply ss x) (Replied ss) (some x) (λ w h. h))

tell_preference :
    (o p : Option Versioned) (os : List Output)
    → Told o p
    → Tracks is_preference p (private_log os)
    → Tracks is_preference p (add_seen o (private_log os))
tell_preference none p os e t = t
tell_preference (some v) p os e t = see_preference v p os e t

answered-Inv :
    (sessions : List UserSession) (x : Result Error (Option Response) × World)
    → Post Inv (λ o w. Holds (Replied sessions o) w) x
    → Inv (answered x)
answered-Inv sessions (ok none, w) h = h.0
answered-Inv sessions (ok (some r), w) h = record {
  lasts = (h.0).lasts;
  private = tell_preference r.preference w.preference w.outputs ((h.1).1) ((h.0).private);
  public = see_shown r.presence w.snapshot w.outputs ((h.1).0.0) ((h.0).public);
}
answered-Inv sessions (err e, w) h = h

supplied-Inv : (q : Request) (w : World) → q.lock ≡ held → Inv w → Inv (supplied q w)
supplied-Inv q w e h = record { lasts = e; private = h.private; public = h.public }

run_keeps : (qs : List Request) (w : World) → are_in_time qs ≡ true → Inv w → Inv (run qs w)
unfolding run
run_keeps [] w e h = h
run_keeps (q ∷ qs) w e h =
    run_keeps qs (answered (handle q.event q.sessions (supplied q w))) (in_time-tail q qs e) (
      answered-Inv q.sessions (handle q.event q.sessions (supplied q w)) (
        (handle_keeps q.event q.sessions).holds (supplied q w)
          (supplied-Inv q w (in_time-head q qs e) h, tt)))

reached : (qs : List Request) → are_in_time qs ≡ true → Inv (run qs new_world)
reached qs e =
    run_keeps qs new_world e (record { lasts = refl; private = untouched; public = untouched })

Tracks-pairs :
    (t : PresenceStatus → Bool) {o : Option Versioned} {log : List Versioned} (i j : ℕ)
    (a b : Versioned)
    → i ≤ j
    → Tracks t o log
    → get_elem? log i ≡ some a
    → get_elem? log j ≡ some b
    → Follows a b × (t a.status ≡ true)
Tracks-pairs t i j a b l untouched e f = cc
Tracks-pairs t i j a b l (tracked p h) e f = History-pairs t i j a b l h e f

-- Of two presences of the user that were published in a run of the handlers, the earlier is the later
-- one or has a lower version, and none has the status invisible: whatever calls of the libraries fail
-- before or after their effect, and whatever numbers are generated, as long as no handler outlives its
-- lock.
pub presence_versions :
    (qs : List Request) (i j : ℕ) (a b : Versioned)
    → are_in_time qs ≡ true
    → i ≤ j
    → get_elem? (published_presences (run qs new_world).outputs) i ≡ some a
    → get_elem? (published_presences (run qs new_world).outputs) j ≡ some b
    → Follows a b × (is_public a.status ≡ true)
presence_versions qs i j a b k l e f =
    let w = run qs new_world in
    Tracks-pairs is_public i j a b l
      (presences-Tracks w.outputs (shown w.snapshot) ((reached qs k).public)) e f

-- Of two preferences of the user that were published in a run of the handlers, the earlier is the later
-- one or has a lower version, and none has the status offline: whatever calls of the libraries fail
-- before or after their effect, and whatever numbers are generated, as long as no handler outlives its
-- lock.
pub preference_versions :
    (qs : List Request) (i j : ℕ) (a b : Versioned)
    → are_in_time qs ≡ true
    → i ≤ j
    → get_elem? (published_preferences (run qs new_world).outputs) i ≡ some a
    → get_elem? (published_preferences (run qs new_world).outputs) j ≡ some b
    → Follows a b × (is_preference a.status ≡ true)
preference_versions qs i j a b k l e f =
    let w = run qs new_world in
    Tracks-pairs is_preference i j a b l
      (preferences-Tracks w.outputs w.preference ((reached qs k).private)) e f

handle-Fails : (e : Event) (sessions : List UserSession) → Fails (handle e sessions)
unfolding handle
handle-Fails (register r) ss = bind Lapsed (register-Fails r ss) (λ x. give-Fails (some x))
handle-Fails (refresh r) ss = bind Lapsed (refresh-Fails r ss) (λ x. give-Fails (some x))
handle-Fails (update r) ss = bind Lapsed (update-Fails r ss) (λ x. give-Fails (some x))
handle-Fails (remove user_id session_id guild_ids) ss =
    bind Lapsed (remove-Fails user_id session_id guild_ids ss) (λ x. give-Fails none)
handle-Fails (resolve user_id) ss =
    bind Lapsed (resolve_user-Fails user_id ss) (λ x. give-Fails (some x))

-- A handler that answers has not outlived its lock.
answered_in_time :
    (q : Request) (w after : World) (o : Option Response)
    → handle q.event q.sessions (supplied q w) ≡ (ok o, after)
    → q.lock ≡ held
answered_in_time q w after o e = in_time q.lock (λ h.
    subst (Post Lapsed (λ a w. ⊥)) e ((handle-Fails q.event q.sessions).holds (supplied q w) h))
  where
    in_time : (l : Lock) → ¬ (has_expired l ≡ true) → l ≡ held
    in_time held f = refl
    in_time (expires others) f = absurd (f refl)

-- After any run of the handlers in which none outlives its lock, a handler that answers with a presence
-- answers with the one that its snapshot has, whose status is what the live sessions and the stored
-- preference come to; and a preference that it answers with is the stored one.
pub answer_current :
    (qs : List Request) (q : Request) (r : Response) (w : World)
    → are_in_time qs ≡ true
    → handle q.event q.sessions (supplied q (run qs new_world)) ≡ (ok (some r), w)
    → ((shown w.snapshot ≡ some r.presence)
        × (r.presence.status ≡ aggregate_status (preferred w.preference) q.sessions))
      × Told r.preference w.preference
answer_current qs q r w k e =
    let start = run qs new_world in
    (subst (Post Inv (λ o w. Holds (Replied q.sessions o) w)) e (
      (handle_keeps q.event q.sessions).holds (supplied q start)
        (supplied-Inv q start (answered_in_time q start w (some r) e) (reached qs k), tt))).1
