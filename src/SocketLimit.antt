-- ===== src/SocketLimit.antt =====
-- pkg/socketlimit/limiter.go: process-local limits on accepted sockets and pending handshakes. The
-- leases are objects that their holders share with the manager: a handle is an index into the list
-- of all leases ever given out. Each method is one critical section of the manager's mutex. The
-- counters are natural numbers: no method takes one from a counter at 0 (SocketLimit/Counts).
pub mod Counts
pub mod Limits
pub mod Examples
use cordis.Common.{
  ℕ, ◌+◌, ◌-◌, String, Bool, true, false, not, ◌||◌, ◌==◌, string_eq, nat_eq, Option, none, some,
  List, [], ◌∷◌, ◌++◌, length, get_elem?, set, if◌then◌else◌,
}
use cordis.Common.Int.{ℤ, pos, int_leb}

pub record Lease : Type 0 where
  pub scope : String
  pub pending : Bool
  pub released : Bool

pub record Manager : Type 0 where
  pub connections : ℕ
  pub pending : ℕ
  pub scopes : String → Option ℕ
  pub leases : List Lease

unfoldable pub new_manager : Manager
new_manager = record { connections = 0; pending = 0; scopes = λ s. none; leases = [] }

-- Reading a missing key of the map gives 0.
abbrev pub scope_count : Manager → String → ℕ
scope_count m scope = elim (m.scopes scope) [ none ↦ 0 | some n ↦ n ]

abbrev pub set_scope : (String → Option ℕ) → String → Option ℕ → String → Option ℕ
set_scope scopes scope v s = if s == scope then v else scopes s

-- A new lease, waiting for its handshake, with the counters that stand for it.
abbrev pub grant : Manager → String → Manager
grant m scope = record {
  connections = m.connections + 1;
  pending = m.pending + 1;
  scopes = set_scope m.scopes scope (some (scope_count m scope + 1));
  leases = m.leases ++ (record { scope = scope; pending = true; released = false }) ∷ [];
}

-- The lease's handle, or `none` where a limit is reached or an argument is not valid.
unfoldable pub acquire : Manager → String → ℤ → ℤ → ℤ → Manager × Option ℕ
acquire m scope max_connections max_pending max_pending_for_scope =
    if scope == ""
      || int_leb max_connections (pos 0)
      || int_leb max_pending (pos 0)
      || int_leb max_pending_for_scope (pos 0)
    then (m, none)
    else if int_leb max_connections (pos m.connections)
        || int_leb max_pending (pos m.pending)
        || int_leb max_pending_for_scope (pos (scope_count m scope))
    then (m, none)
    else (grant m scope, some (length m.leases))

unfoldable pub release_pending : Manager → String → Manager
release_pending m scope =
    let left = scope_count m scope - 1 in
    record m {
      pending = m.pending - 1;
      scopes = set_scope m.scopes scope (if left == 0 then none else some left);
    }

unfoldable pub mark_ready : Manager → ℕ → Manager
mark_ready m handle = elim (get_elem? m.leases handle) [
  | none ↦ m
  | some l ↦
      if l.released || not l.pending
      then m
      else release_pending
          (record m { leases = set m.leases handle (record l { pending = false }) }) l.scope
]

unfoldable pub release : Manager → ℕ → Manager
release m handle = elim (get_elem? m.leases handle) [
  | none ↦ m
  | some l ↦
      let freed = record m {
        connections = m.connections - 1;
        leases = set m.leases handle (record l { released = true; pending = false });
      } in
      if l.released then m else if l.pending then release_pending freed l.scope else freed
]
