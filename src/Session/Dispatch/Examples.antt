-- ===== src/Session/Dispatch/Examples.antt =====
-- Dispatches of messages on small inputs.
use cordis.Common.{◌≡◌, refl, subst, false, Option, none, some, List, [], ◌∷◌, ◌==◌, if◌then◌else◌}
use cordis.Common.Int.{ℤ, pos, int_eq}
use cordis.Session.Dedup.{new_store as new_dedup}
use cordis.Session.Watermark.{accept, new_store as new_watermarks}
use cordis.Session.Watermark.Order.{after}
use cordis.Session.Visibility.{
  VisibilitySnapshot, Users, retain, retain_entry, invalidate, invalidate_entry, snapshot_for,
  install, mark_reconcile,
}
use cordis.Session.Dispatch.{
  NodeSession, Handed, message, Load, Ensure, own, joined, Node, MessageRequest, watermark_key,
  contains, dispatch_visible_guild_channel, Text, dispatch_guild_message_event, key_required,
}
use cordis.Common.Action.{ok, err}
use cordis.Common.{ℕ, string_eq, true, String}
use cordis.Session.Watermark
use cordis.Session.Dedup.{check_and_add, seen_from, shard_of}
use cordis.Session.Visibility.Revisions.{installs, step, after as after_ops}
use cordis.Session.Dispatch.Others.{Revocation, Closed, LawfulLoad, lawful_own, Each}
use cordis.Session.Dispatch.Viewers.{Withheld, revoked_gets_nothing}

abbrev snapshot : ℤ → List ℤ → VisibilitySnapshot
snapshot revision channels = record { access_revision = revision; channel_ids = channels }

abbrev in_guild : VisibilitySnapshot → ℤ → Option VisibilitySnapshot
in_guild s g = if g == pos 10 then some s else none

-- Two users see channels 21 and 22; then user 1 may not see channel 21 from revision 5 on.
abbrev two_users : Users
two_users =
    retain (retain (λ u. none) (pos 1) (in_guild (snapshot (pos 4) (pos 21 ∷ pos 22 ∷ [])))) (pos 2)
      (in_guild (snapshot (pos 4) (pos 21 ∷ pos 22 ∷ [])))

abbrev revoked : Users
revoked = (invalidate two_users (pos 1) (pos 10) (pos 5)).0

abbrev load : Load
load = record { answer = some (snapshot (pos 6) (pos 22 ∷ [])); meanwhile = [] }

abbrev loads_in : List Load → Ensure
loads_in loads = record { earlier = []; reload = own [] loads }

abbrev sessions : List NodeSession
sessions =
    record { user_id = pos 1; session_id = "a" }
    ∷ record { user_id = pos 2; session_id = "b" }
    ∷ record { user_id = pos 1; session_id = "c" }
    ∷ []

abbrev hello : Handed
hello = message "message.created" "{}"

-- The message goes to user 2.
only_the_viewer :
    (dispatch_visible_guild_channel
      (λ u. loads_in (load ∷ []))
      (pos 1 ∷ pos 2 ∷ [])
      sessions
      (pos 10)
      (pos 21)
      hello
      revoked).1
    ≡ record { session = record { user_id = pos 2; session_id = "b" }; handed = hello } ∷ []
unfolding retain retain_entry invalidate invalidate_entry snapshot_for install mark_reconcile
    dispatch_visible_guild_channel after_ops
only_the_viewer = refl

-- The load fails, while another one installs a snapshot that shows the channel: neither the message nor
-- a reconcile is handed to the user's sessions.
abbrev late_load : Load
late_load = record {
  answer = none;
  meanwhile = installs (pos 1) (pos 10) 1 (snapshot (pos 6) (pos 21 ∷ [])) ∷ [];
}

lost_silently :
    (dispatch_visible_guild_channel
      (λ u. loads_in (late_load ∷ []))
      (pos 1 ∷ [])
      sessions
      (pos 10)
      (pos 21)
      hello
      revoked).1
    ≡ []
unfolding retain retain_entry invalidate invalidate_entry snapshot_for install mark_reconcile
    dispatch_visible_guild_channel after_ops step
lost_silently = refl

-- A call that joins a reload which another caller began: that one installed a snapshot with the channel,
-- the invalidation followed, and the result is taken without a look at the revision that is asked for.
-- The message goes to a user who may not see the channel any more.
joined_delivers :
    (dispatch_visible_guild_channel
      (λ u. record {
        earlier = [];
        reload = joined [] (some (snapshot (pos 4) (pos 21 ∷ pos 22 ∷ [])));
      })
      (pos 1 ∷ [])
      (record { user_id = pos 1; session_id = "a" } ∷ [])
      (pos 10)
      (pos 21)
      hello
      revoked).1
    ≡ record { session = record { user_id = pos 1; session_id = "a" }; handed = hello } ∷ []
unfolding retain retain_entry invalidate invalidate_entry snapshot_for
    dispatch_visible_guild_channel
joined_delivers = refl

abbrev taken : Revocation
taken = record { user_id = pos 1; guild_id = pos 10; channel_id = pos 21; revision = pos 5 }

revoked-Closed : Closed taken revoked
unfolding retain retain_entry invalidate invalidate_entry snapshot_for
revoked-Closed = record { up_to = refl; hidden = λ s e. cc }

load-LawfulLoad : (v : ℤ) → LawfulLoad taken v load
load-LawfulLoad v = record { answers = λ i s e l. hides s e; others = tt }
  where
    hides :
        (s : VisibilitySnapshot)
        → some (snapshot (pos 6) (pos 22 ∷ [])) ≡ some s
        → contains s (pos 21) ≡ false
    hides s e =
        let f : snapshot (pos 6) (pos 22 ∷ []) ≡ s = cc in
        subst (λ x. contains x (pos 21) ≡ false) f refl

revoked_gets_nothing_example :
    Closed taken
      (dispatch_visible_guild_channel
        (λ u. loads_in (load ∷ []))
        (pos 1 ∷ pos 2 ∷ [])
        sessions
        (pos 10)
        (pos 21)
        hello
        revoked).0
    × Each
        (Withheld taken)
        (dispatch_visible_guild_channel
          (λ u. loads_in (load ∷ []))
          (pos 1 ∷ pos 2 ∷ [])
          sessions
          (pos 10)
          (pos 21)
          hello
          revoked).1
revoked_gets_nothing_example =
    revoked_gets_nothing taken (λ u. loads_in (load ∷ [])) (pos 1 ∷ pos 2 ∷ []) sessions hello
      revoked revoked-Closed
      (λ v. record { others = tt; answered = lawful_own tt (load-LawfulLoad v, tt) })

abbrev request : ℤ → MessageRequest
request sequence = record {
  guild_id = pos 10;
  channel_id = pos 21;
  event_type = "message.created";
  json_payload = "{}";
  idempotency_key = sequence;
  stream_sequence = sequence;
}

abbrev node : Node
node = record {
  dedup = new_dedup;
  watermarks = (accept new_watermarks 0 (watermark_key (request (pos 8))) (pos 8)).0;
  known = two_users;
}

-- The handler answers with one delivery, and refuses a request without an idempotency key and changes
-- nothing.
abbrev text : Text
text = record { is_space = λ s. s == ""; is_json = λ s. true }

handler_delivers :
    (dispatch_guild_message_event text
      (λ s. 0)
      1000
      (request (pos 9))
      (λ u. loads_in [])
      (pos 1 ∷ pos 2 ∷ [])
      (record { user_id = pos 2; session_id = "b" } ∷ [])
      node).0
    ≡ ok (record { session = record { user_id = pos 2; session_id = "b" }; handed = hello } ∷ [])
unfolding retain retain_entry snapshot_for accept check_and_add seen_from shard_of new_dedup
    new_watermarks dispatch_guild_message_event cordis.Session.Watermark.shard_of
handler_delivers = refl

handler_refuses :
    (hash : String → ℕ) (n : Node)
    → dispatch_guild_message_event text hash 1000 (request (pos 0)) (λ u. loads_in []) [] sessions n
      ≡ (err key_required, n)
unfolding dispatch_guild_message_event
handler_refuses hash n = refl
