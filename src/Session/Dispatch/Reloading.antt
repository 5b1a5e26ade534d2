-- ===== src/Session/Dispatch/Reloading.antt =====
-- What ensureVisibilitySnapshot of visibility.go finds for a user from whom a channel was taken away.
use cordis.Common.{
  ℕ, zero, suc, ◌≡◌, inl, inr, refl, subst, Bool, true, false, nat_eq, string_eq, Option, none,
  some, List, [], ◌∷◌, arith, take, Option-cases, if◌then◌else◌,
}
use cordis.Common.Int.{ℤ, int_leb, int_eq}
use cordis.Session.Visibility.{VisibilitySnapshot, Users, snapshot_for, reload_target, install}
use cordis.Session.Visibility.Revisions.{Op, after}
use cordis.Session.Dispatch.{
  Load, Reload, own, joined, Ensure, reload_result, contains, installed, try_candidate, try_load,
  reload_visibility_snapshot, ensure_visibility_snapshot,
}
use cordis.Session.Dispatch.Others.{
  Each, Revocation, lawful_own, lawful_joined, Closed, Brings, LawfulLoad, BeganAfter, LawfulReload,
  LawfulCall, after-Closed, install-Closed,
}

int_leb_chain : (a b c : ℤ) → int_leb a b ≡ true → int_leb b c ≡ true → int_leb a c ≡ true
int_leb_chain a b c h k = ground arith

module _ (taken : Revocation) where
  target_revision :
      (users : Users) (v : ℤ) (n : ℕ) (r : ℤ)
      → v ≡ taken.user_id
      → Closed taken users
      → reload_target users v taken.guild_id ≡ some (n, r)
      → int_leb taken.revision r ≡ true
  unfolding reload_target
  target_revision users v n r e h t =
      let q : reload_target users taken.user_id taken.guild_id ≡ some (n, r) =
        subst (λ x. reload_target users x taken.guild_id ≡ some (n, r)) e t in
      ground (arith, h.up_to, q)

  -- What a part of the dispatch leaves, and what it has found for a user.
  abbrev pub Found : ℤ → Users × Option VisibilitySnapshot → Type 0
  Found v (users, none) = Closed taken users
  Found v (users, some s) =
      Closed taken users × (v ≡ taken.user_id → contains s taken.channel_id ≡ false)

  installed-Found :
      (v : ℤ) (x : Users × Bool) (c : VisibilitySnapshot) (next : Users × Option VisibilitySnapshot)
      → Closed taken (x.0)
      → (v ≡ taken.user_id → contains c taken.channel_id ≡ false)
      → Found v next
      → Found v (installed x c next)
  installed-Found v (users, true) c next h k f = (h, k)
  installed-Found v (users, false) c next h k f = f

  -- What the next round of the loop makes of what it meets.
  abbrev Onward : ℤ → (Users → Users × Option VisibilitySnapshot) → Type 0
  Onward v next = (users : Users) → Closed taken users → Found v (next users)

  if-Found :
      (v : ℤ) (b : Bool) (x y : Users × Option VisibilitySnapshot)
      → (b ≡ true → Found v x)
      → Found v y
      → Found v (if b then x else y)
  if-Found v true x y f g = f refl
  if-Found v false x y f g = g

  candidate-Found :
      (v : ℤ) (n : ℕ) (r : ℤ) (o : Option VisibilitySnapshot) (users : Users)
      (next : Users → Users × Option VisibilitySnapshot)
      → (v ≡ taken.user_id → int_leb taken.revision r ≡ true)
      → Brings taken v o
      → Closed taken users
      → Onward v next
      → Found v (try_candidate n r o users v taken.guild_id next)
  unfolding try_candidate
  candidate-Found v n r none users next t a h f = h
  candidate-Found v n r (some c) users next t a h f =
      let after = install users v taken.guild_id n c in
      if-Found v (int_leb r c.access_revision) (installed after c (next (after.0))) (users, none)
        (λ g.
          let hides : v ≡ taken.user_id → contains c taken.channel_id ≡ false =
            λ i. a i c refl (int_leb_chain taken.revision r c.access_revision (t i) g) in
          let closed = install-Closed taken users v n c h hides in
          installed-Found v after c (next (after.0)) closed hides (f (after.0) closed))
        h

  load-Found :
      (v : ℤ) (o : Option (ℕ × ℤ)) (l : Load) (users : Users)
      (next : Users → Users × Option VisibilitySnapshot)
      → reload_target users v taken.guild_id ≡ o
      → LawfulLoad taken v l
      → Closed taken users
      → Onward v next
      → Found v (try_load o l users v taken.guild_id next)
  unfolding try_load
  load-Found v none l users next e a h f = h
  load-Found v (some (n, r)) l users next e a h f =
      candidate-Found v n r l.answer (after users l.meanwhile) next
        (λ i. target_revision users v n r i h e) a.answers
        (after-Closed taken users l.meanwhile a.others h) f

  reload-Found :
      (v : ℤ) (loads : List Load) (users : Users)
      → Each (LawfulLoad taken v) loads
      → Closed taken users
      → Found v (reload_visibility_snapshot loads v taken.guild_id users)
  unfolding reload_visibility_snapshot
  reload-Found v [] users a h = h
  reload-Found v (l ∷ ls) users a h =
      load-Found v (reload_target users v taken.guild_id) l users
        (reload_visibility_snapshot ls v taken.guild_id) refl (a.0) h
        (λ us k. reload-Found v ls us (a.1) k)

  take-Each :
      (v : ℤ) (n : ℕ) (loads : List Load)
      → Each (LawfulLoad taken v) loads
      → Each (LawfulLoad taken v) (take n loads)
  take-Each v n [] a = tt
  take-Each v zero (l ∷ ls) a = tt
  take-Each v (suc n) (l ∷ ls) a = (a.0, take-Each v n ls (a.1))

  hides :
      (x : Users × Option VisibilitySnapshot) (s : VisibilitySnapshot)
      → Found taken.user_id x
      → x.1 ≡ some s
      → contains s taken.channel_id ≡ false
  hides (users, none) s f e = cc
  hides (users, some c) s (h, k) e =
      let same : c ≡ s = cc in subst (λ x. contains x taken.channel_id ≡ false) same (k refl)

  BeganAfter-hides :
      (s : VisibilitySnapshot) → BeganAfter taken s → contains s taken.channel_id ≡ false
  BeganAfter-hides s b =
      hides (reload_visibility_snapshot b.loads taken.user_id taken.guild_id b.start) s
        (reload-Found taken.user_id b.loads b.start b.lawful b.closed) b.brings

  result-Found :
      (v : ℤ) (ops : List Op) (result : Option VisibilitySnapshot) (users : Users)
      → (v ≡ taken.user_id → (s : VisibilitySnapshot) → result ≡ some s → BeganAfter taken s)
      → Closed taken (after users ops)
      → Found v (after users ops, result)
  result-Found v ops none users b h = h
  result-Found v ops (some s) users b h = (h, λ i. BeganAfter-hides s (b i s refl))

  answered-Found :
      (v : ℤ) (x : Reload) (users : Users)
      → LawfulReload taken v x
      → Closed taken users
      → Found v (reload_result x v taken.guild_id users)
  unfolding reload_result
  answered-Found v (own ops loads) users (lawful_own l a) h =
      reload-Found v (take 2 loads) (after users ops) (take-Each v 2 loads a)
        (after-Closed taken users ops l h)
  answered-Found v (joined ops result) users (lawful_joined l b) h =
      result-Found v ops result users b (after-Closed taken users ops l h)

  pub ensure-Found :
      (v : ℤ) (call : Ensure) (users : Users)
      → LawfulCall taken v call
      → Closed taken users
      → Found v (ensure_visibility_snapshot call v taken.guild_id users)
  unfolding ensure_visibility_snapshot
  ensure-Found v call users l h =
      let now = after users call.earlier in
      let k : Closed taken now = after-Closed taken users call.earlier l.others h in
      elim (Option-cases (snapshot_for now v taken.guild_id)) [
        | inl e ↦ rw e (answered-Found v call.reload now l.answered k)
        | inr (s, e) ↦
            rw e (k, λ i. k.hidden s (subst (λ x. snapshot_for now x taken.guild_id ≡ some s) i e))
      ]
