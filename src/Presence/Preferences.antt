-- ===== src/Presence/Preferences.antt =====
-- The preference's row of presence.go: it is made, changed and seen with versions that only grow.
use cordis.Common.{
  ℕ, ◌<◌, ◌≡◌, refl, sym, subst, true, ◌==◌, nat_eq, Option, none, some, List, ◌∷◌, arith,
  Bool-cases, Option-cases, inl, inr,
}
use cordis.Common.Triple.{bind}
use cordis.Presence.{
  PresenceStatus, offline, online, idle, dnd, invisible, status_code, Versioned, Output,
  preference_updated, is_preference, status_invalid, save_user_presence_preference,
}
use cordis.Presence.Server.{
  proto_status_to_store, save_and_publish, choose_status, initial_of, requested_status,
}
use cordis.Presence.Transitions.{new_preference, or_new_preference, ensure_user_presence_preference}
use cordis.Presence.History.{private_log, Tracks, version_or_zero, advance-Tracks, see-Tracks}
use cordis.Presence.Calls.{
  Fact, Inv, Step, give_keeps, fail_keeps, write_keeps, publish_keeps, next_version_keeps,
  get_preference_keeps,
}

-- A status that the protocol names is that of a preference.
proto_status_to_store_lem :
    (n : ℕ) (s : PresenceStatus) → proto_status_to_store n ≡ some s → is_preference s ≡ true
proto_status_to_store_lem n offline e = ground (arith, e)
proto_status_to_store_lem n online e = refl
proto_status_to_store_lem n idle e = refl
proto_status_to_store_lem n dnd e = refl
proto_status_to_store_lem n invisible e = refl

abbrev pub Any : Fact
Any p s os = Unit {0}

-- The row holds this preference.
abbrev pub Row : Versioned → Fact
Row v p s os = p ≡ some v

save_keeps :
    (o : Option Versioned) (v : Versioned)
    → is_preference v.status ≡ true
    → Step
        (λ p s os. (version_or_zero is_preference o < v.version) × (o ≡ p))
        (save_user_presence_preference v)
        (λ u. Row v)
unfolding save_user_presence_preference
save_keeps o v k =
    write_keeps (λ p s os. (version_or_zero is_preference o < v.version) × (o ≡ p)) (Row v)
      (λ w. record w { preference = some v })
      (λ w h. (
        record {
          lasts = (h.0).lasts;
          private =
              advance-Tracks is_preference v k
                (subst (λ p. version_or_zero is_preference p < v.version) ((h.1).1) ((h.1).0))
                ((h.0).private);
          public = (h.0).public;
        },
        refl,
      ))

-- The preference that the row holds may be seen again.
pub see_preference :
    (v : Versioned) (p : Option Versioned) (os : List Output)
    → p ≡ some v
    → Tracks is_preference p (private_log os)
    → Tracks is_preference p (v ∷ private_log os)
see_preference v p os e t =
    subst (λ o. Tracks is_preference o (v ∷ private_log os)) (sym e)
      (see-Tracks is_preference (subst (λ o. Tracks is_preference o (private_log os)) e t))

new_preference_keeps :
    (status : PresenceStatus)
    → is_preference status ≡ true
    → Step (λ p s os. none ≡ p) (new_preference status) Row
unfolding new_preference version_or_zero
new_preference_keeps status k =
    let new : ℕ → Versioned = λ n. record { status = status; version = n } in
    bind Inv (next_version_keeps (λ p s os. none ≡ p) 0) (λ n.
      bind Inv (save_keeps none (new n) k) (λ u. give_keeps (Row (new n)) Row (new n) (λ w h. h)))

or_new_preference_keeps :
    (status : PresenceStatus) (o : Option Versioned)
    → is_preference status ≡ true
    → Step (λ p s os. (o ≡ p) × Unit {0}) (or_new_preference status o) Row
unfolding or_new_preference
or_new_preference_keeps status none k = record {
  holds = λ w h. (new_preference_keeps status k).holds w (h.0, (h.1).0);
}
or_new_preference_keeps status (some v) k =
    give_keeps (λ p s os. (some v ≡ p) × Unit {0}) Row v (λ w h. (h.0, sym ((h.1).0)))

pub ensure_keeps :
    (status : PresenceStatus)
    → is_preference status ≡ true
    → Step Any (ensure_user_presence_preference status) Row
unfolding ensure_user_presence_preference
ensure_keeps status k =
    bind Inv (get_preference_keeps Any) (λ o. or_new_preference_keeps status o k)

save_and_publish_keeps :
    (o : Option Versioned) (v : Versioned)
    → is_preference v.status ≡ true
    → Step
        (λ p s os. (version_or_zero is_preference o < v.version) × (o ≡ p))
        (save_and_publish v)
        Row
unfolding save_and_publish
save_and_publish_keeps o v k = bind Inv (save_keeps o v k) (λ u.
    bind Inv
      (publish_keeps (Row v) (preference_updated v) (λ w h. (
        record {
          lasts = (h.0).lasts;
          private = see_preference v w.preference w.outputs (h.1) ((h.0).private);
          public = (h.0).public;
        },
        h.1,
      )))
      (λ u. give_keeps (Row v) Row v (λ w h. h)))

-- What a request may ask for.
abbrev pub Askable : Option PresenceStatus → Type 0
Askable none = Unit {0}
Askable (some status) = is_preference status ≡ true

pub choose_status_keeps :
    (o : Option PresenceStatus) (v : Versioned) → Askable o → Step (Row v) (choose_status o v) Row
unfolding choose_status version_or_zero
choose_status_keeps none v k = give_keeps (Row v) Row v (λ w h. h)
choose_status_keeps (some status) v k =
    let new : ℕ → Versioned = λ n. record { status = status; version = n } in
    elim (Bool-cases (status_code v.status == status_code status)) [
      | inl e ↦ rw e (give_keeps (Row v) Row v (λ w h. h))
      | inr e ↦ rw e (
          bind Inv (next_version_keeps (Row v) v.version) (λ n. record {
            holds = λ w h.
                (save_and_publish_keeps (some v) (new n) k).holds w (h.0, ((h.1).0, sym ((h.1).1)));
          }))
    ]

pub initial_of_keeps :
    (o : Option ℕ)
    → Step Any (initial_of o) (λ status p s os. (is_preference status ≡ true) × Unit {0})
initial_of_keeps none =
    give_keeps Any (λ status p s os. (is_preference status ≡ true) × Unit {0}) online
      (λ w h. (h.0, (refl, tt)))
initial_of_keeps (some n) = elim (Option-cases (proto_status_to_store n)) [
  | inl e ↦
      rw e
        (fail_keeps Any (λ status p s os. (is_preference status ≡ true) × Unit {0}) status_invalid)
  | inr (status, e) ↦ rw e (
      give_keeps Any (λ status p s os. (is_preference status ≡ true) × Unit {0}) status
        (λ w h. (h.0, (proto_status_to_store_lem n status e, tt))))
]

pub requested_status_keeps :
    (o : Option ℕ) → Step Any (requested_status o) (λ status p s os. Askable status × Unit {0})
requested_status_keeps none =
    give_keeps Any (λ status p s os. Askable status × Unit {0}) none (λ w h. (h.0, (tt, tt)))
requested_status_keeps (some n) = elim (Option-cases (proto_status_to_store n)) [
  | inl e ↦ rw e (fail_keeps Any (λ status p s os. Askable status × Unit {0}) status_invalid)
  | inr (status, e) ↦ rw e (
      give_keeps Any (λ status p s os. Askable status × Unit {0}) (some status)
        (λ w h. (h.0, (proto_status_to_store_lem n status e, tt))))
]
