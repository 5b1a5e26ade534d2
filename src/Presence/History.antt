-- ===== src/Presence/History.antt =====
-- What others have seen of the presence of a user, against the rows that presence.go keeps.
use cordis.Common.{
  ℕ, zero, suc, ◌≤◌, ◌<◌, ◌≡◌, ◌⊎◌, inl, inr, refl, ap, sym, subst, ◌∙◌, Bool, true, Option, none,
  some, List, [], ◌∷◌, arith, get_elem?,
}
use cordis.Presence.{
  PresenceStatus, Versioned, Snapshot, Output, Lock, held, presence_updated, preference_updated,
  responded, is_preference, is_public,
}

-- The public statuses that were seen, and the preferences, the newest first.
abbrev pub public_log : List Output → List Versioned
public_log [] = []
public_log (presence_updated v guild_ids ∷ os) = v ∷ public_log os
public_log (preference_updated v ∷ os) = public_log os
public_log (responded r ∷ os) = r.presence ∷ public_log os

abbrev pub add_seen : Option Versioned → List Versioned → List Versioned
add_seen none vs = vs
add_seen (some v) vs = v ∷ vs

abbrev pub private_log : List Output → List Versioned
private_log [] = []
private_log (presence_updated v guild_ids ∷ os) = private_log os
private_log (preference_updated v ∷ os) = v ∷ private_log os
private_log (responded r ∷ os) = add_seen r.preference (private_log os)

-- One that was seen is the other, or has a lower version.
abbrev pub Follows : Versioned → Versioned → Type 0
Follows later earlier = (earlier ≡ later) ⊎ (earlier.version < later.version)

pub chain_versions : {a b c : Versioned} → Follows a b → Follows b c → Follows a c
chain_versions {a = a} {b = b} {c = c} (inl e) (inl f) = inl (f ∙ e)
chain_versions {a = a} {b = b} {c = c} (inl e) (inr l) =
    inr (ground (arith, ap (λ v. v.version) e, l))
chain_versions {a = a} {b = b} {c = c} (inr l) (inl f) =
    inr (ground (arith, ap (λ v. v.version) f, l))
chain_versions (inr l) (inr k) = inr (omega (arith, l, k))

module _ (t : PresenceStatus → Bool) where
  -- Each of a log follows the next, and has a status of its kind.
  pub data History : Versioned → List Versioned → Type 0 where
    unseen : {v : Versioned} → t v.status ≡ true → History v []
    seen :
        {v w : Versioned} {log : List Versioned}
        → t v.status ≡ true
        → Follows v w
        → History w log
        → History v (w ∷ log)

  -- The row against the log.
  pub data Tracks : Option Versioned → List Versioned → Type 0 where
    untouched : Tracks none []
    tracked :
        {v : Versioned} {log : List Versioned} → 0 < v.version → History v log → Tracks (some v) log

  pub status_of_kind : {v : Versioned} {log : List Versioned} → History v log → t v.status ≡ true
  status_of_kind (unseen k) = k
  status_of_kind (seen k f h) = k

  -- A row with a higher version, or the same row, keeps the log.
  advance-History :
      {v : Versioned} {log : List Versioned} (w : Versioned)
      → t w.status ≡ true
      → Follows w v
      → History v log
      → History w log
  advance-History w k g (unseen j) = unseen k
  advance-History w k g (seen j f h) = seen k (chain_versions g f) h

  pub see-Tracks :
      {v : Versioned} {log : List Versioned} → Tracks (some v) log → Tracks (some v) (v ∷ log)
  see-Tracks (tracked p h) = tracked p (seen (status_of_kind h) (inl refl) h)

  unfoldable pub version_or_zero : Option Versioned → ℕ
  version_or_zero none = 0
  version_or_zero (some v) = v.version

  pub advance-Tracks :
      {o : Option Versioned} {log : List Versioned} (w : Versioned)
      → t w.status ≡ true
      → version_or_zero o < w.version
      → Tracks o log
      → Tracks (some w) log
  unfolding version_or_zero
  advance-Tracks w k l untouched = tracked l (unseen k)
  advance-Tracks w k l (tracked p h) = tracked (omega (arith, p, l)) (advance-History w k (inr l) h)

  below :
      {v : Versioned} {log : List Versioned} (j : ℕ) (b : Versioned)
      → History v log
      → get_elem? log j ≡ some b
      → Follows v b × (t b.status ≡ true)
  below zero b (unseen k) e = cc
  below (suc j) b (unseen k) e = cc
  below zero b (seen {v = v} {w = w} k f h) e =
      let same : w ≡ b = cc in
      (subst (λ x. Follows v x) same f, subst (λ x. t x.status ≡ true) same (status_of_kind h))
  below (suc j) b (seen k f h) e = let (g, i) = below j b h e in (chain_versions f g, i)

  pub History-pairs :
      {v : Versioned} {log : List Versioned} (i j : ℕ) (a b : Versioned)
      → i ≤ j
      → History v log
      → get_elem? log i ≡ some a
      → get_elem? log j ≡ some b
      → Follows a b × (t a.status ≡ true)
  History-pairs i j a b l (unseen k) e f = cc
  History-pairs zero zero a b l (seen {w = w} k f h) e g =
      let same : w ≡ a = cc in
      let equal : b ≡ a = cc in (inl equal, subst (λ x. t x.status ≡ true) same (status_of_kind h))
  History-pairs zero (suc j) a b l (seen {w = w} k f h) e g =
      let same : w ≡ a = cc in
      let (m, n) = below j b h g in
      (subst (λ x. Follows x b) same m, subst (λ x. t x.status ≡ true) same (status_of_kind h))
  History-pairs (suc i) zero a b l (seen k f h) e g = absurd (omega (arith, l))
  History-pairs (suc i) (suc j) a b l (seen k f h) e g =
      History-pairs i j a b (omega (arith, l)) h e g

-- The presences and the preferences that were published, without those that were only answered.
abbrev pub published_presences : List Output → List Versioned
published_presences [] = []
published_presences (presence_updated v guild_ids ∷ os) = v ∷ published_presences os
published_presences (preference_updated v ∷ os) = published_presences os
published_presences (responded r ∷ os) = published_presences os

abbrev pub published_preferences : List Output → List Versioned
published_preferences [] = []
published_preferences (presence_updated v guild_ids ∷ os) = published_preferences os
published_preferences (preference_updated v ∷ os) = v ∷ published_preferences os
published_preferences (responded r ∷ os) = published_preferences os

drop_seen :
    (t : PresenceStatus → Bool) (o : Option Versioned) {v : Versioned} {log : List Versioned}
    → History t v (add_seen o log)
    → History t v log
drop_seen t none h = h
drop_seen t (some x) {v = v} (seen k f h) = advance-History t v k f h

presences-History :
    (os : List Output) (v : Versioned)
    → History is_public v (public_log os)
    → History is_public v (published_presences os)
presences-History [] v h = h
presences-History (presence_updated x guild_ids ∷ os) v (seen k f h) =
    seen k f (presences-History os x h)
presences-History (preference_updated x ∷ os) v h = presences-History os v h
presences-History (responded r ∷ os) v h =
    presences-History os v (drop_seen is_public (some r.presence) h)

preferences-History :
    (os : List Output) (v : Versioned)
    → History is_preference v (private_log os)
    → History is_preference v (published_preferences os)
preferences-History [] v h = h
preferences-History (presence_updated x guild_ids ∷ os) v h = preferences-History os v h
preferences-History (preference_updated x ∷ os) v (seen k f h) =
    seen k f (preferences-History os x h)
preferences-History (responded r ∷ os) v h =
    preferences-History os v (drop_seen is_preference r.preference h)

no_presences : (os : List Output) → public_log os ≡ [] → published_presences os ≡ []
no_presences [] e = refl
no_presences (presence_updated x guild_ids ∷ os) e = cc
no_presences (preference_updated x ∷ os) e = no_presences os e
no_presences (responded r ∷ os) e = absurd (cc)

add_seen_nothing : (o : Option Versioned) (vs : List Versioned) → add_seen o vs ≡ [] → vs ≡ []
add_seen_nothing none vs e = e
add_seen_nothing (some v) vs e = absurd (cc)

no_preferences : (os : List Output) → private_log os ≡ [] → published_preferences os ≡ []
no_preferences [] e = refl
no_preferences (presence_updated x guild_ids ∷ os) e = no_preferences os e
no_preferences (preference_updated x ∷ os) e = cc
no_preferences (responded r ∷ os) e =
    no_preferences os (add_seen_nothing r.preference (private_log os) e)

carry-Tracks :
    (t : PresenceStatus → Bool) {o : Option Versioned} {log : List Versioned}
    (part : List Versioned)
    → (log ≡ [] → part ≡ [])
    → ((v : Versioned) → History t v log → History t v part)
    → Tracks t o log
    → Tracks t o part
carry-Tracks t part e f untouched = subst (λ l. Tracks t none l) (sym (e refl)) untouched
carry-Tracks t part e f (tracked {v = v} p h) = tracked p (f v h)

pub presences-Tracks :
    (os : List Output) (o : Option Versioned)
    → Tracks is_public o (public_log os)
    → Tracks is_public o (published_presences os)
presences-Tracks os o =
    carry-Tracks is_public (published_presences os) (no_presences os) (presences-History os)

pub preferences-Tracks :
    (os : List Output) (o : Option Versioned)
    → Tracks is_preference o (private_log os)
    → Tracks is_preference o (published_preferences os)
preferences-Tracks os o =
    carry-Tracks is_preference (published_preferences os) (no_preferences os)
      (preferences-History os)

-- What the rows and the outputs keep.
abbrev pub shown : Option Snapshot → Option Versioned
shown none = none
shown (some s) = some s.public

pub record Kept (lock : Lock) (preference : Option Versioned) (snapshot : Option Snapshot)
    (outputs : List Output) : Type 0 where
  pub lasts : lock ≡ held
  pub private : Tracks is_preference preference (private_log outputs)
  pub public : Tracks is_public (shown snapshot) (public_log outputs)
