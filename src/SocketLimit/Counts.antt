-- ===== src/SocketLimit/Counts.antt =====
-- The counters of limiter.go are the leases they stand for.
use text.Mathlib.TextEquality.{eq_iff}
use cordis.Common.{
  ℕ, zero, suc, ◌-◌, ◌≡◌, refl, String, Bool, true, false, not, ◌&&◌, ◌||◌, ◌==◌, string_eq, nat_eq,
  Option, none, some, inl, inr, List, [], ◌∷◌, ◌++◌, arith, get_elem?, set, count_if, count_if-set,
  count_if-append, Bool-cases, Option-cases, if◌then◌else◌,
}
use cordis.Common.Int.{ℤ, pos, int_leb}
use cordis.SocketLimit.{
  Lease, Manager, new_manager, grant, scope_count, acquire, release_pending, mark_ready, release,
}

abbrev pub is_held : Lease → Bool
is_held l = not l.released

abbrev pub is_pending : Lease → Bool
is_pending l = l.pending

abbrev pub pends_for : String → Lease → Bool
pends_for scope l = l.scope == scope && l.pending

-- No released lease is pending.
abbrev pub AllSettled : List Lease → Type 0
AllSettled [] = Unit {0}
AllSettled (l ∷ ls) = (l.released ≡ true → l.pending ≡ false) × AllSettled ls

-- An active key is one with a pending lease; its entry is their number.
abbrev pub entry_for : ℕ → Option ℕ
entry_for n = if n == 0 then none else some n

pub record Counts (m : Manager) : Type 0 where
  pub held : m.connections ≡ count_if is_held m.leases
  pub waiting : m.pending ≡ count_if is_pending m.leases
  pub by_scope : (s : String) → m.scopes s ≡ entry_for (count_if (pends_for s) m.leases)
  pub settled : AllSettled m.leases

pub new_manager-Counts : Counts new_manager
unfolding new_manager
new_manager-Counts = record { held = refl; waiting = refl; by_scope = λ s. refl; settled = tt }

AllSettled-append :
    (ls : List Lease) (l : Lease) → AllSettled ls → l.released ≡ false → AllSettled (ls ++ l ∷ [])
AllSettled-append [] l v e = (λ h. cc, tt)
AllSettled-append (x ∷ ls) l v e = (v.0, AllSettled-append ls l v.1 e)

AllSettled-set :
    (ls : List Lease) (i : ℕ) (l : Lease)
    → AllSettled ls
    → l.pending ≡ false
    → AllSettled (set ls i l)
AllSettled-set [] i l v e = tt
AllSettled-set (x ∷ ls) zero l v e = (λ h. e, v.1)
AllSettled-set (x ∷ ls) (suc i) l v e = (v.0, AllSettled-set ls i l v.1 e)

module _ (m : Manager) (v : Counts m) where
  pub scope_count-leases : (s : String) → scope_count m s ≡ count_if (pends_for s) m.leases
  scope_count-leases s = ground (arith, v.by_scope s)

  grant-Counts : (scope : String) → Counts (grant m scope)
  grant-Counts scope = record {
    held = omega (
      arith,
      v.held,
      count_if-append is_held m.leases
          ((record { scope = scope; pending = true; released = false }) ∷ []),
    );
    waiting = omega (
      arith,
      v.waiting,
      count_if-append is_pending m.leases
          ((record { scope = scope; pending = true; released = false }) ∷ []),
    );
    by_scope = λ s. ground (
      arith,
      v.by_scope s,
      eq_iff s scope,
      eq_iff scope s,
      scope_count-leases scope,
      count_if-append (pends_for s) m.leases
          ((record { scope = scope; pending = true; released = false }) ∷ []),
    );
    settled = AllSettled-append m.leases _ v.settled refl;
  }

  pub acquire-Counts : (scope : String) (a b c : ℤ) → Counts (acquire m scope a b c).0
  unfolding acquire
  acquire-Counts scope a b c =
      elim (Bool-cases
        (scope == "" || int_leb a (pos 0) || int_leb b (pos 0) || int_leb c (pos 0))) [
          | inl h ↦ rw h v
          | inr h ↦
              elim (Bool-cases (
                int_leb a (pos m.connections)
                || int_leb b (pos m.pending)
                || int_leb c (pos (scope_count m scope)))) [
                  | inl k ↦ rw h (rw k v)
                  | inr k ↦ rw h (rw k (grant-Counts scope))
                ]
        ]

  -- The lease at a handle loses its pending mark, with the counters that stand for it.
  settled_scopes :
      (i : ℕ) (l l' : Lease) (s : String)
      → get_elem? m.leases i ≡ some l
      → l.pending ≡ true
      → l'.pending ≡ false
      → (n c : ℕ)
      → (release_pending
            (record { connections = c; pending = n; scopes = m.scopes; leases = set m.leases i l' })
            l.scope).scopes
          s
        ≡ entry_for (count_if (pends_for s) (set m.leases i l'))
  unfolding release_pending
  settled_scopes i l l' s e p q n c = ground (
    arith,
    v.by_scope s,
    v.by_scope l.scope,
    eq_iff s l.scope,
    eq_iff l.scope s,
    eq_iff l.scope l.scope,
    eq_iff l'.scope s,
    count_if-set (pends_for s) m.leases i l l' e,
    scope_count-leases l.scope,
  )

  pub mark_ready-Counts : (i : ℕ) → Counts (mark_ready m i)
  unfolding mark_ready release_pending
  mark_ready-Counts i = elim (Option-cases (get_elem? m.leases i)) [
    | inl e ↦ rw (e, mark_ready) v
    | inr w ↦ elim (Bool-cases (w.0.released || not w.0.pending)) [
      | inl k ↦ rw (w.1, mark_ready) (rw k v)
      | inr k ↦
          let p : w.0.pending ≡ true = ground arith in
          let l' : Lease = record { scope = w.0.scope; pending = false; released = w.0.released } in
          let goal : Counts (release_pending (record m { leases = set m.leases i l' }) w.0.scope) =
            record {
              held = omega (arith, v.held, count_if-set is_held m.leases i w.0 l' w.1);
              waiting = ground (arith, v.waiting, count_if-set is_pending m.leases i w.0 l' w.1);
              by_scope = λ s. settled_scopes i w.0 l' s w.1 p refl m.pending m.connections;
              settled = AllSettled-set m.leases i l' v.settled refl;
            } in
          rw (w.1, mark_ready) (rw k goal)
    ]
  ]

  pub release-Counts : (i : ℕ) → Counts (release m i)
  unfolding release release_pending
  release-Counts i = elim (Option-cases (get_elem? m.leases i)) [
    | inl e ↦ rw (e, release) v
    | inr w ↦
        let l' : Lease = record { scope = w.0.scope; pending = false; released = true } in
        let held_l : w.0.released ≡ false
            → m.connections - 1 ≡ count_if is_held (set m.leases i l') =
          λ r. ground (arith, v.held, count_if-set is_held m.leases i w.0 l' w.1) in
        let waits = count_if-set is_pending m.leases i w.0 l' w.1 in
        elim (Bool-cases w.0.released) [
          | inl k ↦ rw (w.1, release) (rw k v)
          | inr k ↦ elim (Bool-cases w.0.pending) [
            | inl p ↦
                let goal : Counts (
                    release_pending
                      (record m { connections = m.connections - 1; leases = set m.leases i l' })
                      w.0.scope) =
                  record {
                    held = held_l k;
                    waiting = ground (arith, v.waiting, waits);
                    by_scope =
                        λ s. settled_scopes i w.0 l' s w.1 p refl m.pending (m.connections - 1);
                    settled = AllSettled-set m.leases i l' v.settled refl;
                  } in
                rw (w.1, release) (rw k (rw p goal))
            | inr p ↦
                let goal : Counts
                    (record m { connections = m.connections - 1; leases = set m.leases i l' }) =
                  record {
                    held = held_l k;
                    waiting = ground (arith, v.waiting, waits);
                    by_scope = λ s.
                        ground
                          (arith, v.by_scope s, count_if-set (pends_for s) m.leases i w.0 l' w.1);
                    settled = AllSettled-set m.leases i l' v.settled refl;
                  } in
                rw (w.1, release) (rw k (rw p goal))
          ]
        ]
  ]
