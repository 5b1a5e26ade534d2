-- ===== src/SocketLimit/Limits.antt =====
-- Runs of the manager of limiter.go by servers that share one configuration of limits.
use cordis.Common.{
  ℕ, ◌-◌, ◌≤◌, ◌≡◌, refl, sym, subst, String, true, false, not, ◌||◌, string_eq, nat_eq, none, some,
  inl, inr, List, [], ◌∷◌, arith, get_elem?, set, get_elem?-set_self, count_if, Bool-cases,
  Option-cases,
}
use cordis.Common.Int.{pos}
use cordis.SocketLimit.{
  Lease, Manager, new_manager, scope_count, acquire, release_pending, mark_ready, release,
}
use cordis.SocketLimit.Counts.{
  Counts, is_held, is_pending, pends_for, new_manager-Counts, acquire-Counts, mark_ready-Counts,
  release-Counts, scope_count-leases,
}

pub data Call : Type 0 where
  acquires : String → Call
  readies : ℕ → Call
  releases : ℕ → Call

module _ (max_connections max_pending max_pending_for_scope : ℕ) where
  unfoldable pub apply : Manager → Call → Manager
  apply m (acquires scope) =
      (acquire m scope (pos max_connections) (pos max_pending) (pos max_pending_for_scope)).0
  apply m (readies handle) = mark_ready m handle
  apply m (releases handle) = release m handle

  unfoldable pub run : Manager → List Call → Manager
  run m [] = m
  run m (c ∷ cs) = run (apply m c) cs

  apply-Counts : (m : Manager) (c : Call) → Counts m → Counts (apply m c)
  unfolding apply
  apply-Counts m (acquires scope) v = acquire-Counts m v scope _ _ _
  apply-Counts m (readies handle) v = mark_ready-Counts m v handle
  apply-Counts m (releases handle) v = release-Counts m v handle

  run-Counts : (m : Manager) (cs : List Call) → Counts m → Counts (run m cs)
  unfolding run
  run-Counts m [] v = v
  run-Counts m (c ∷ cs) v = run-Counts (apply m c) cs (apply-Counts m c v)

  record Within (m : Manager) : Type 0 where
    connections : m.connections ≤ max_connections
    waiting : m.pending ≤ max_pending
    by_scope : (s : String) → scope_count m s ≤ max_pending_for_scope

  acquire-Within :
      (m : Manager) (scope : String)
      → Within m
      → Within
          (acquire m scope (pos max_connections) (pos max_pending) (pos max_pending_for_scope)).0
  unfolding acquire
  acquire-Within m scope w = record {
    connections = ground (arith, w.connections);
    waiting = ground (arith, w.waiting);
    by_scope = λ s. ground (arith, w.by_scope s);
  }

  release_pending-Within :
      (m : Manager) (scope : String) → Within m → Within (release_pending m scope)
  unfolding release_pending
  release_pending-Within m scope w = record {
    connections = w.connections;
    waiting = omega (arith, w.waiting);
    by_scope = λ s. ground (arith, w.by_scope s, w.by_scope scope);
  }

  mark_ready-Within : (m : Manager) (i : ℕ) → Within m → Within (mark_ready m i)
  unfolding mark_ready
  mark_ready-Within m i w = elim (Option-cases (get_elem? m.leases i)) [
    | inl e ↦ rw (e, mark_ready) w
    | inr l ↦ elim (Bool-cases (l.0.released || not l.0.pending)) [
      | inl k ↦ rw (l.1, mark_ready) (rw k w)
      | inr k ↦
          rw (l.1, mark_ready)
            (rw k (
              release_pending-Within _ l.0.scope (record {
                connections = w.connections;
                waiting = w.waiting;
                by_scope = w.by_scope;
              })))
    ]
  ]

  release-Within : (m : Manager) (i : ℕ) → Within m → Within (release m i)
  unfolding release
  release-Within m i w = elim (Option-cases (get_elem? m.leases i)) [
    | inl e ↦ rw (e, release) w
    | inr l ↦
        let freed : Within (record m {
          connections = m.connections - 1;
          leases = set m.leases i (record l.0 { released = true; pending = false });
        }) =
          record {
            connections = omega (arith, w.connections);
            waiting = w.waiting;
            by_scope = w.by_scope;
          } in
        elim (Bool-cases l.0.released) [
          | inl k ↦ rw (l.1, release) (rw k w)
          | inr k ↦ elim (Bool-cases l.0.pending) [
            | inl p ↦ rw (l.1, release) (rw k (rw p (release_pending-Within _ l.0.scope freed)))
            | inr p ↦ rw (l.1, release) (rw k (rw p freed))
          ]
        ]
  ]

  apply-Within : (m : Manager) (c : Call) → Within m → Within (apply m c)
  unfolding apply
  apply-Within m (acquires scope) w = acquire-Within m scope w
  apply-Within m (readies handle) w = mark_ready-Within m handle w
  apply-Within m (releases handle) w = release-Within m handle w

  run-Within : (m : Manager) (cs : List Call) → Within m → Within (run m cs)
  unfolding run
  run-Within m [] w = w
  run-Within m (c ∷ cs) w = run-Within (apply m c) cs (apply-Within m c w)

  new_manager-Within : Within new_manager
  unfolding new_manager
  new_manager-Within = record {
    connections = omega arith;
    waiting = omega arith;
    by_scope = λ s. omega arith;
  }

  -- After any calls on a new manager, under one configuration of limits, the unreleased leases are
  -- at most max_connections, the leases pending a handshake at most max_pending and those of any
  -- one scope at most max_pending_for_scope, and the counters are exactly these numbers.
  pub leases_within_limits :
      (cs : List Call) (s : String)
      → (count_if is_held (run new_manager cs).leases ≤ max_connections)
        × (count_if is_pending (run new_manager cs).leases ≤ max_pending)
        × (count_if (pends_for s) (run new_manager cs).leases ≤ max_pending_for_scope)
        × ((run new_manager cs).connections ≡ count_if is_held (run new_manager cs).leases)
        × ((run new_manager cs).pending ≡ count_if is_pending (run new_manager cs).leases)
        × (scope_count (run new_manager cs) s ≡ count_if (pends_for s) (run new_manager cs).leases)
  leases_within_limits cs s =
      let v = run-Counts new_manager cs new_manager-Counts in
      let w = run-Within new_manager cs new_manager-Within in
      let e = scope_count-leases (run new_manager cs) v s in
      (
        omega (arith, v.held, w.connections),
        omega (arith, v.waiting, w.waiting),
        omega (arith, e, w.by_scope s),
        v.held,
        v.waiting,
        e,
      )

none_fixed :
    (m : Manager) (i : ℕ) → get_elem? m.leases i ≡ none → (release m i ≡ m) × (mark_ready m i ≡ m)
unfolding release mark_ready
none_fixed m i e = rw (e, release, mark_ready) (refl, refl)

released_fixed :
    (m : Manager) (i : ℕ) (l : Lease)
    → get_elem? m.leases i ≡ some l
    → l.released ≡ true
    → (release m i ≡ m) × (mark_ready m i ≡ m)
unfolding release mark_ready
released_fixed m i l e r = rw (e, release, mark_ready) (rw r (refl, refl))

release_marks :
    (m : Manager) (i : ℕ) (l : Lease)
    → get_elem? m.leases i ≡ some l
    → (l' : Lease) × (get_elem? (release m i).leases i ≡ some l') × (l'.released ≡ true)
unfolding release release_pending
release_marks m i l e =
    let l' : Lease = record { scope = l.scope; pending = false; released = true } in
    let found = get_elem?-set_self m.leases i l l' e in
    elim (Bool-cases l.released) [
      | inl k ↦
          (l, subst (λ n. get_elem? n.leases i ≡ some l) (sym ((released_fixed m i l e k).0)) e, k)
      | inr k ↦ elim (Bool-cases l.pending) [
        | inl p ↦ (l', rw (e, release) (rw k (rw p found)), refl)
        | inr p ↦ (l', rw (e, release) (rw k (rw p found)), refl)
      ]
    ]

-- A second release of a lease, and a MarkReady after its release, change nothing.
release_once :
    (m : Manager) (i : ℕ)
    → (release (release m i) i ≡ release m i) × (mark_ready (release m i) i ≡ release m i)
release_once m i = elim (Option-cases (get_elem? m.leases i)) [
  | inl e ↦
      none_fixed (release m i) i
        (subst (λ n. get_elem? n.leases i ≡ none) (sym ((none_fixed m i e).0)) e)
  | inr l ↦ let r = release_marks m i l.0 l.1 in released_fixed (release m i) i r.0 r.1 r.2
]
