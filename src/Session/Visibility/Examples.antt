-- ===== src/Session/Visibility/Examples.antt =====
-- Snapshots of one guild for one user, with a reload and a second session in between
-- (visibility.go).
use cordis.Session.Visibility.Reloads.{overtaken_reload_refused}
use cordis.Session.Visibility.{reload_target}
use cordis.Common.{arith, ◌≡◌, refl, true, false, Option, none, some, List, [], ◌∷◌, if◌then◌else◌}
use cordis.Common.Int.{ℤ, pos, int_leb, int_eq}
use cordis.Common.{◌==◌}
use cordis.Session.Visibility.{
  VisibilitySnapshot, Users, retain, retain_entry, invalidate, invalidate_entry, install,
  snapshot_for, mark_reconcile,
}
use cordis.Session.Visibility.Revisions.{
  Op, installs, invalidates, reconciles, step, after, served_up_to_date,
}

abbrev at : ℤ → VisibilitySnapshot
at revision = record { access_revision = revision; channel_ids = pos 21 ∷ pos 22 ∷ [] }

abbrev guild_at : ℤ → ℤ → Option VisibilitySnapshot
guild_at revision g = if g == pos 10 then some (at revision) else none

abbrev nobody : Users
nobody u = none

abbrev one_session : Users
one_session = retain nobody (pos 1) (guild_at (pos 4))

abbrev reloads : List Op
reloads =
    reconciles (pos 1) (pos 10)
    ∷ installs (pos 1) (pos 10) 0 (at (pos 4))
    ∷ installs (pos 1) (pos 10) 1 (at (pos 6))
    ∷ []

served_up_to_date_example : int_leb (pos 5) (pos 6) ≡ true
unfolding retain retain_entry invalidate invalidate_entry install snapshot_for mark_reconcile step
    after
served_up_to_date_example =
    served_up_to_date (pos 1) (pos 10) one_session (pos 5) reloads (at (pos 6)) refl refl
      (refl, (refl, (refl, tt))) refl

-- Between the target and an invalidation without a revision comes another load's snapshot, and a
-- versioned invalidation.
abbrev between : List Op
between = installs (pos 1) (pos 10) 0 (at (pos 7)) ∷ invalidates (pos 1) (pos 10) (pos 8) ∷ []

overtaken_reload_refused_example :
    let end = (invalidate (after one_session between) (pos 1) (pos 10) (pos 0)).0 in
    (install end (pos 1) (pos 10) 0 (at (pos 9)) ≡ (end, false))
    × (snapshot_for end (pos 1) (pos 10) ≡ none)
unfolding retain retain_entry invalidate invalidate_entry install reload_target step after
overtaken_reload_refused_example =
    overtaken_reload_refused (pos 1) (pos 10) one_session (pos 0) 0 (pos 0) (at (pos 9)) between
      (omega arith) (omega arith) refl (refl, (refl, tt)) refl

-- A reload for revision 5 that ends after another session brought revision 7 puts 5 back, although
-- the invalidation for revision 7 was already answered as not needed.
overtaken : Users
overtaken =
    (invalidate
      (retain (invalidate one_session (pos 1) (pos 10) (pos 5)).0 (pos 1) (guild_at (pos 7)))
      (pos 1) (pos 10) (pos 7)).0

overtaken_ignored :
    (invalidate
      (retain (invalidate one_session (pos 1) (pos 10) (pos 5)).0 (pos 1) (guild_at (pos 7)))
      (pos 1)
      (pos 10)
      (pos 7)).1
    ≡ false
unfolding retain retain_entry invalidate invalidate_entry
overtaken_ignored = refl

overtaken_serves_old :
    snapshot_for (install overtaken (pos 1) (pos 10) 1 (at (pos 5))).0 (pos 1) (pos 10)
    ≡ some (at (pos 5))
unfolding overtaken retain retain_entry invalidate invalidate_entry install snapshot_for
overtaken_serves_old = refl
