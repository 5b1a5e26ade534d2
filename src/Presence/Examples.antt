-- ===== src/Presence/Examples.antt =====
-- Runs of presence.go on small inputs.
use cordis.Common.{ℕ, ◌≡◌, refl, true, none, some, List, [], ◌∷◌, arith}
use cordis.Common.Int.{pos}
use cordis.Common.Action.{ok, err}
use cordis.Presence.{
  offline, idle, invisible, UserSession, Response, done, unsure, World, held, expires, Others, dnd,
  lock_expired, presence_updated, responded, is_public, is_preference, aggregate_status, preferred,
}
use cordis.Presence.Server.{SessionRequest, UpdateRequest}
use cordis.Presence.History.{public_log, private_log, published_presences, Follows, shown}
use cordis.Presence.Handlers.{Told}
use cordis.Presence.Run.{
  register, update, resolve, Request, handle, supplied, run, new_world, presence_versions,
  preference_versions, answer_current,
}

abbrev phone : UserSession
phone = record { session_id = "phone"; last_seen_at = 100 }

abbrev session_request : SessionRequest
session_request = record {
  user_id = pos 7;
  session_id = "phone";
  gateway_id = "gateway-1";
  generation = "g1";
  client_state = 1;
  initial_status = some 3;
  guild_ids = pos 1 ∷ [];
}

abbrev to_invisible : UpdateRequest
to_invisible = record {
  user_id = pos 7;
  session_id = "phone";
  status = some 5;
  client_state = none;
  guild_ids = pos 1 ∷ [];
}

-- The user registers as idle, hides while a call fails, hides again, and its session ends; the numbers
-- that are generated stand still.
abbrev requests : List Request
requests =
    record {
      event = register session_request;
      sessions = phone ∷ [];
      outcomes = [];
      generated = 50 ∷ 50 ∷ [];
      has_publisher = true;
      lock = held;
    }
    ∷ record {
      event = update to_invisible;
      sessions = phone ∷ [];
      outcomes = done ∷ done ∷ unsure ∷ [];
      generated = 50 ∷ [];
      has_publisher = true;
      lock = held;
    }
    ∷ record {
      event = update to_invisible;
      sessions = phone ∷ [];
      outcomes = [];
      generated = 60 ∷ 40 ∷ [];
      has_publisher = true;
      lock = held;
    }
    ∷ []

public_run :
    public_log (run requests new_world).outputs
    ≡ record { status = offline; version = 60 }
      ∷ record { status = offline; version = 60 }
      ∷ record { status = idle; version = 50 }
      ∷ record { status = idle; version = 50 }
      ∷ []
unfolding run handle
public_run = refl

private_run :
    private_log (run requests new_world).outputs
    ≡ record { status = invisible; version = 51 } ∷ record { status = idle; version = 50 } ∷ []
unfolding run handle
private_run = refl

-- Sessions that expire before a resolve: it saves and answers that the user is offline, and publishes
-- nothing.
expiry_by_resolve :
    (run
      (record {
        event = register session_request;
        sessions = phone ∷ [];
        outcomes = [];
        generated = 50 ∷ 50 ∷ [];
        has_publisher = true;
        lock = held;
      }
        ∷ record {
          event = resolve (pos 7);
          sessions = [];
          outcomes = [];
          generated = 60 ∷ [];
          has_publisher = true;
          lock = held;
        }
        ∷ [])
      new_world).outputs
    ≡ responded (record { presence = record { status = offline; version = 60 }; preference = none })
      ∷ responded (record {
        presence = record { status = idle; version = 50 };
        preference = some (record { status = idle; version = 50 });
      })
      ∷ presence_updated (record { status = idle; version = 50 }) (pos 1 ∷ [])
      ∷ []
unfolding run handle
expiry_by_resolve = refl

-- The first session of a user.
abbrev register_request : Request
register_request = record {
  event = register session_request;
  sessions = phone ∷ [];
  outcomes = [];
  generated = 50 ∷ 51 ∷ [];
  has_publisher = true;
  lock = held;
}

-- A handler outlives its lock: before it publishes that the user is offline, another one saves and
-- publishes a later version. The older one follows, and the answer is that the lock has expired.
abbrev others : Others
others = record {
  preference = some (record { status = dnd; version = 70 });
  snapshot = some (record { public = record { status = dnd; version = 80 }; last_seen_at = 100 });
  outputs = presence_updated (record { status = dnd; version = 80 }) (pos 1 ∷ []) ∷ [];
}

abbrev late_request : Request
late_request = record {
  event = update to_invisible;
  sessions = phone ∷ [];
  outcomes = [];
  generated = 60 ∷ 61 ∷ [];
  has_publisher = true;
  lock = expires (none ∷ none ∷ none ∷ none ∷ none ∷ none ∷ none ∷ none ∷ some others ∷ []);
}

late_handler_publishes :
    published_presences (run (register_request ∷ late_request ∷ []) new_world).outputs
    ≡ record { status = offline; version = 61 }
      ∷ record { status = dnd; version = 80 }
      ∷ record { status = idle; version = 51 }
      ∷ []
unfolding run handle
late_handler_publishes = refl

late_handler_fails :
    (handle late_request.event late_request.sessions
      (supplied late_request (run (register_request ∷ []) new_world))).0
    ≡ err lock_expired
unfolding run handle
late_handler_fails = refl

presence_versions_example :
    Follows (record { status = offline; version = 60 }) (record { status = idle; version = 50 })
    × (is_public offline ≡ true)
unfolding run handle
presence_versions_example =
    presence_versions requests 0 1 (record { status = offline; version = 60 })
      (record { status = idle; version = 50 }) refl (omega arith) refl refl

-- The user hides, and then asks not to be disturbed; the numbers that are generated go back.
abbrev update_request : ℕ → List ℕ → Request
update_request status generated = record {
  event = update (record to_invisible { status = some status });
  sessions = phone ∷ [];
  outcomes = [];
  generated = generated;
  has_publisher = true;
  lock = held;
}

abbrev updates : List Request
updates = register_request ∷ update_request 5 (60 ∷ 61 ∷ []) ∷ update_request 4 (40 ∷ 40 ∷ []) ∷ []

preference_versions_example :
    Follows (record { status = dnd; version = 61 }) (record { status = invisible; version = 60 })
    × (is_preference dnd ≡ true)
unfolding run handle
preference_versions_example =
    preference_versions updates 0 1 (record { status = dnd; version = 61 })
      (record { status = invisible; version = 60 }) refl (omega arith) refl refl

-- The world after the first session of a user, and its answer.
abbrev registered_world : World
registered_world = record {
  preference = some (record { status = idle; version = 50 });
  snapshot = some (record { public = record { status = idle; version = 51 }; last_seen_at = 100 });
  outputs = presence_updated (record { status = idle; version = 51 }) (pos 1 ∷ []) ∷ [];
  outcomes = [];
  generated = [];
  has_publisher = true;
  lock = held;
}

abbrev registered : Response
registered = record {
  presence = record { status = idle; version = 51 };
  preference = some (record { status = idle; version = 50 });
}

registered_lem :
    handle (register session_request) (phone ∷ []) (supplied register_request (run [] new_world))
    ≡ (ok (some registered), registered_world)
unfolding run handle
registered_lem = refl

answer_current_example :
    ((shown registered_world.snapshot ≡ some registered.presence)
      × (registered.presence.status
          ≡ aggregate_status (preferred registered_world.preference) (phone ∷ [])))
    × Told registered.preference registered_world.preference
answer_current_example =
    answer_current [] register_request registered registered_world refl registered_lem
