-- ===== src/Session/Config.antt =====
-- services/session/v1/config/config.go: the limits of a node, with the defaults of the accessors.
use cordis.Common.{ℕ, ◌*◌, ◌-◌, ◌<◌, min, arith}
use cordis.Common.Int.{ℤ, pos, negsuc, positive_or}

pub record NodeConfig : Type 0 where
  pub max_replay_events : ℤ
  pub max_pending_dispatches : ℤ
  pub max_pending_dispatch_bytes : ℤ
  pub binding_queue_size : ℤ
  pub session_resume_seconds : ℤ

-- `ResumeTTL`, in nanoseconds (the source multiplies in 64 bits).
unfoldable pub resume_ttl : NodeConfig → ℕ
resume_ttl c = positive_or 120 c.session_resume_seconds * 1_000_000_000

unfoldable pub replay_limit : NodeConfig → ℕ
replay_limit c = positive_or 2048 c.max_replay_events

unfoldable pub queue_size : NodeConfig → ℕ
queue_size c = positive_or 4096 c.binding_queue_size

-- Both limits are positive, so the `max(0, x-1)` of the source is the truncated subtraction.
unfoldable pub pending_dispatch_limit : NodeConfig → ℕ
pending_dispatch_limit c =
    min (min (positive_or 1024 c.max_pending_dispatches) (replay_limit c - 1)) (queue_size c - 1)

unfoldable pub pending_dispatch_byte_limit : NodeConfig → ℕ
pending_dispatch_byte_limit c = positive_or 16777216 c.max_pending_dispatch_bytes

pub positive_or_pos : (d : ℕ) (x : ℤ) → 0 < d → 0 < positive_or d x
positive_or_pos d (pos n) h = ground arith
positive_or_pos d (negsuc n) h = h

pub replay_limit_pos : (c : NodeConfig) → 0 < replay_limit c
unfolding replay_limit
replay_limit_pos c = positive_or_pos 2048 c.max_replay_events (omega arith)

pub queue_size_pos : (c : NodeConfig) → 0 < queue_size c
unfolding queue_size
queue_size_pos c = positive_or_pos 4096 c.binding_queue_size (omega arith)

pub pending_dispatch_limit_fits :
    (c : NodeConfig)
    → (pending_dispatch_limit c < replay_limit c) × (pending_dispatch_limit c < queue_size c)
unfolding pending_dispatch_limit
pending_dispatch_limit_fits c = omega (arith, replay_limit_pos c, queue_size_pos c)
