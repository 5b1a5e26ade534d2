-- ===== src/Presence/Expiry.antt =====
-- A lock that has run out does not come back, whatever the parts of a handler of presence.go do.
use cordis.Common.{
  ℕ, ◌≡◌, refl, Bool, true, false, ◌==◌, nat_eq, string_eq, Option, none, some, List, [], ◌∷◌, ltb,
  ◌+◌, ◌-◌, ◌^◌, if◌then◌else◌,
}
use cordis.Common.Int.{ℤ, int_eq}
use cordis.Common.Action.{give, gets, fail}
use cordis.Common.Triple.{Triple, Post, bind}
use cordis.Presence.{
  PresenceStatus, Versioned, Snapshot, UserSession, Live, World, Error, Tx, Lock, held, expires,
  Others, Outcome, done, lost, unsure, Output, presence_updated, preference_updated, overwritten,
  until_call, next_call, first_outcome, rest_of, settled, published, call, write, publish, generate,
  get_user_presence_preference, get_user_presence_snapshot, save_user_presence_preference,
  save_user_presence_snapshot, resolve_user_presence, write_user_session, read_preference,
  read_snapshot, status_code, version_exhausted, aggregate_user_presence, preferred,
}
use cordis.Presence.Transitions.{
  has_expired, next_version, new_preference, or_new_preference, ensure_user_presence_preference,
  save_if, reconcile_with, reconcile_user_presence, publish_transition, reconcile_and_publish,
  is_changed, version_of,
}
use cordis.Presence.Server.{save_and_publish, choose_status, update_live}

abbrev pub Lapsed : World → Type 0
Lapsed w = has_expired w.lock ≡ true

-- The lock does not come back.
abbrev pub Lapses : {A : Type 0} → Tx A → Type 0
Lapses {A = A} m = Triple Lapsed Lapsed m (λ (a : A) w. Lapsed w)

overwritten-Lapsed : (o : Option Others) (w : World) → Lapsed w → Lapsed (overwritten o w)
overwritten-Lapsed none w h = h
overwritten-Lapsed (some o) w h = h

until_call-Lapsed :
    (l : Lock) (w : World) → has_expired l ≡ true → Lapsed w → Lapsed (until_call l w)
until_call-Lapsed held w e h = h
until_call-Lapsed (expires []) w e h = h
until_call-Lapsed (expires (o ∷ os)) w e h =
    overwritten-Lapsed o (record w { lock = expires os }) refl

next_call-Lapsed : (w : World) → Lapsed w → Lapsed (next_call w)
next_call-Lapsed w h = until_call-Lapsed w.lock (record w { outcomes = rest_of w.outcomes }) h h

settled-Lapsed :
    (o : Outcome) (v w : World)
    → Lapsed v
    → Lapsed w
    → Post Lapsed (λ u w. Lapsed w) (settled o v w)
settled-Lapsed done v w h k = k
settled-Lapsed lost v w h k = h
settled-Lapsed unsure v w h k = k

published-Lapsed : (o : Outcome) (v w : World) → Lapsed v → Lapsed w → Lapsed (published o v w)
published-Lapsed done v w h k = k
published-Lapsed lost v w h k = h
published-Lapsed unsure v w h k = k

if-Lapsed : (b : Bool) (v w : World) → Lapsed v → Lapsed w → Lapsed (if b then v else w)
if-Lapsed true v w h k = h
if-Lapsed false v w h k = k

pub call-Lapses : Lapses call
unfolding call
call-Lapses = record {
  holds = λ w h.
      settled-Lapsed (first_outcome w.outcomes) (next_call w) (next_call w) (next_call-Lapsed w h)
        (next_call-Lapsed w h);
}

write-Lapses : (f : World → World) → ((w : World) → Lapsed w → Lapsed (f w)) → Lapses (write f)
unfolding write
write-Lapses f k = record {
  holds = λ w h.
      settled-Lapsed (first_outcome w.outcomes) (next_call w) (f (next_call w))
        (next_call-Lapsed w h) (k (next_call w) (next_call-Lapsed w h));
}

pub publish-Lapses : (e : Output) → Lapses (publish e)
unfolding publish
publish-Lapses e = record {
  holds = λ w h.
      let now = next_call w in
      let later = record now { outputs = e ∷ now.outputs } in
      if-Lapsed w.has_publisher (published (first_outcome w.outcomes) now later) w
        (published-Lapsed (first_outcome w.outcomes) now later (next_call-Lapsed w h)
          (next_call-Lapsed w h))
        h;
}

generate-Lapses : Lapses generate
unfolding generate
generate-Lapses = record { holds = λ w h. h }

pub give-Lapses : {A : Type 0} (a : A) → Lapses (give a)
give-Lapses a = record { holds = λ w h. h }

gets-Lapses : {A : Type 0} (f : World → A) → Lapses (gets f)
gets-Lapses f = record { holds = λ w h. h }

pub fail-Lapses : {A : Type 0} (e : Error) → Lapses (fail {A = A} e)
fail-Lapses e = record { holds = λ w h. h }

pub if-Lapses :
    {A : Type 0} (b : Bool) (m n : Tx A) → Lapses m → Lapses n → Lapses (if b then m else n)
if-Lapses true m n h k = h
if-Lapses false m n h k = k

next_version-Lapses : (previous : ℕ) → Lapses (next_version previous)
unfolding next_version
next_version-Lapses previous = bind Lapsed generate-Lapses (λ n.
    if-Lapses (ltb previous n) _ _ (give-Lapses n) (
      if-Lapses (previous == 2 ^ 63 - 1) _ _ (fail-Lapses version_exhausted)
        (give-Lapses (previous + 1))))

get_preference-Lapses : Lapses get_user_presence_preference
unfolding get_user_presence_preference
get_preference-Lapses =
    bind Lapsed call-Lapses (λ u. gets-Lapses (λ w. read_preference w.preference))

get_snapshot-Lapses : Lapses get_user_presence_snapshot
unfolding get_user_presence_snapshot
get_snapshot-Lapses = bind Lapsed call-Lapses (λ u. gets-Lapses (λ w. read_snapshot w.snapshot))

save_preference-Lapses : (v : Versioned) → Lapses (save_user_presence_preference v)
unfolding save_user_presence_preference
save_preference-Lapses v = write-Lapses (λ w. record w { preference = some v }) (λ w h. h)

save_if-Lapses : (b : Bool) (s : Snapshot) → Lapses (save_if b s)
unfolding save_if save_user_presence_snapshot
save_if-Lapses true s = write-Lapses (λ w. record w { snapshot = some s }) (λ w h. h)
save_if-Lapses false s = give-Lapses tt

or_new-Lapses :
    (status : PresenceStatus) (o : Option Versioned) → Lapses (or_new_preference status o)
unfolding or_new_preference new_preference
or_new-Lapses status none = bind Lapsed (next_version-Lapses 0) (λ v.
    bind Lapsed (save_preference-Lapses (record { status = status; version = v }))
      (λ u. give-Lapses (record { status = status; version = v })))
or_new-Lapses status (some v) = give-Lapses v

pub ensure-Lapses : (status : PresenceStatus) → Lapses (ensure_user_presence_preference status)
unfolding ensure_user_presence_preference
ensure-Lapses status = bind Lapsed get_preference-Lapses (or_new-Lapses status)

pub resolve-Lapses : (sessions : List UserSession) → Lapses (resolve_user_presence sessions)
unfolding resolve_user_presence
resolve-Lapses sessions = bind Lapsed call-Lapses (λ u.
    bind Lapsed get_preference-Lapses
      (λ p. give-Lapses (aggregate_user_presence (preferred p) sessions)))

pub write_session-Lapses : (sessions : List UserSession) → Lapses (write_user_session sessions)
unfolding write_user_session
write_session-Lapses sessions = bind Lapsed call-Lapses (λ u. resolve-Lapses sessions)

reconcile_with-Lapses :
    (live : Live) (previous : Option Snapshot) → Lapses (reconcile_with live previous)
unfolding reconcile_with
reconcile_with-Lapses live previous =
    bind Lapsed
      (if-Lapses (is_changed previous live) _ _ (next_version-Lapses (version_of previous))
        (give-Lapses (version_of previous)))
      (λ v. bind Lapsed (save_if-Lapses _ _) (λ u. give-Lapses _))

pub reconcile-Lapses : (live : Live) → Lapses (reconcile_user_presence live)
unfolding reconcile_user_presence
reconcile-Lapses live = bind Lapsed get_snapshot-Lapses (reconcile_with-Lapses live)

publish_transition-Lapses :
    (c : Bool) (v : Versioned) (guild_ids : List ℤ) → Lapses (publish_transition c v guild_ids)
unfolding publish_transition
publish_transition-Lapses true v guild_ids = publish-Lapses (presence_updated v guild_ids)
publish_transition-Lapses false v guild_ids = give-Lapses tt

pub reconcile_and_publish-Lapses :
    (guild_ids : List ℤ) (live : Live) → Lapses (reconcile_and_publish guild_ids live)
unfolding reconcile_and_publish
reconcile_and_publish-Lapses guild_ids live = bind Lapsed (reconcile-Lapses live) (λ x.
    bind Lapsed (publish_transition-Lapses (x.1) ((x.0).public) guild_ids)
      (λ u. give-Lapses ((x.0).public)))

pub choose_status-Lapses : (o : Option PresenceStatus) (v : Versioned) → Lapses (choose_status o v)
unfolding choose_status save_and_publish
choose_status-Lapses none v = give-Lapses v
choose_status-Lapses (some status) v =
    if-Lapses (status_code v.status == status_code status) _ _ (give-Lapses v) (
      bind Lapsed (next_version-Lapses v.version) (λ n.
        bind Lapsed (save_preference-Lapses (record { status = status; version = n })) (λ u.
          bind Lapsed
            (publish-Lapses (preference_updated (record { status = status; version = n })))
            (λ u. give-Lapses (record { status = status; version = n })))))

pub update_live-Lapses :
    (o : Option ℕ) (sessions : List UserSession) → Lapses (update_live o sessions)
unfolding update_live
update_live-Lapses none sessions = resolve-Lapses sessions
update_live-Lapses (some n) sessions = write_session-Lapses sessions
