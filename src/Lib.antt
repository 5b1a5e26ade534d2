-- ===== src/Lib.antt =====
-- Cordis, a chat service in Go: a verification of the parts that decide what is delivered and who
-- may do what.
--
-- Clients hold a socket to a gateway (services/gateway), which opens a stream for each client to a
-- session node (services/session). The session node keeps a logical session for each client: it
-- numbers the events for the client, buffers them until the client acknowledges them, and replays
-- what a client has missed when it resumes on another stream. Events reach the session node from
-- the dispatcher, which reads them from Kafka, at least once and possibly out of order; the session
-- node drops the repeated and the stale ones. Whether a user may see an event, or change a guild, is
-- decided by the permissions of services/guild.
--
-- The files and the code they model:
--
-- Session/Config: the limits of a session node, services/session/v1/config/config.go (ReplayLimit,
--   QueueSize, PendingDispatchLimit, PendingDispatchByteLimit, ResumeTTL).
-- Session/Logical, Session/Connection: a logical session and the binding of its gateway stream, in
--   services/session/v1/internal/server (server.go, state.go, connection.go, dispatch.go,
--   cleanup.go). The record LogicalSession has the fields of logicalSession that these operations
--   use; each function is the part of one Go function that runs under the session's mutex:
--   dispatch_session is dispatchSession, append_dispatch is appendDispatchLocked, new_session and
--   finish_ready the two parts of identify, resume, heartbeat, detach and acknowledge their
--   namesakes, sync_checkpoint one round of SyncGatewayConnections, send_control the frame of Drain,
--   take_frame the receive of Connect, is_expired the test of cleanupDetached.
--   Logical/Runs, Invariant, Steps: the replay buffer as a run of numbers, the invariant against the
--   history of all events, and that the operations keep it. Logical/Resume, Ready, Handshake, Reach:
--   the resume, the READY handshake, and runs of all operations in any order.
-- Session/Dedup: dedup.go of the same folder (dedupStore with checkAndAdd, remove, rotateAll).
--   Dedup/Generations, Rotation, Removal: one shard; Dedup/Refinement, Contract: the store against its specification.
-- Session/Watermark: watermark.go of the same folder (watermarkStore with accept and cleanup).
--   Watermark/Order: what is accepted in a run; Cleanups: runs with and without a cleanup.
-- Session/Visibility: visibility.go of the same folder (retainVisibilitySnapshots,
--   releaseVisibilitySnapshots, invalidateVisibilityGuild, removeVisibilityGuild,
--   visibilitySnapshotFor, visibilityReloadTarget, installReloadedVisibilitySnapshot,
--   markVisibilityReconcile). Visibility/Revisions: runs of these in any order;
--   Visibility/Reloads: a reload and an invalidation.
-- Session/Dispatch: dispatch.go and visibility.go of the same folder (DispatchGuildMessageEvent,
--   dispatchVisibleGuildChannel, ensureVisibilitySnapshot with reloadVisibilitySnapshot), on top of
--   Dedup, Watermark and Visibility. Of the singleflight group, the semaphore and the timeout of a
--   reload, a call is told what it gets: its own reload, or the result of another's, as it comes (Reload),
--   with what other goroutines do until then. Dispatch/Others, Reloading, Viewers:
--   what other goroutines do, what a reload finds, and who gets a message; Sequence: stale messages.
-- Guild/Permissions: services/guild/v1/internal/server/permissions.go, and the checks on an overwrite
--   in channel_permissions.go. Permissions/Masks and Layers read each loop bit by bit.
-- Guild/Layout: services/guild/v1/internal/server/channel_layout.go (normalizeGuildChannelPlacements,
--   channelParentMoveUpdates) with the update of the rows in internal/store/queries/channel.go.
--   Layout/Slots, Placement, Numbering: every channel gets a slot, and the updates number an order;
--   Reorder, Move: the two operations.
-- SocketLimit: pkg/socketlimit/limiter.go (Manager.Acquire, Lease.MarkReady, Lease.Release).
-- RateLimit: pkg/ratelimit/local.go (NewLocalBackend, Take with its parts, sweep). RateLimit/Windows: the
--   size of its map; Allowance, Quota: what a key is allowed in a period. RateLimit/Manager: ratelimit.go of
--   the same folder (Manager.Take, beginPrimaryAttempt, finishPrimaryAttempt, cancelPrimaryAttempt,
--   takeFallback); Manager/Failover: attempts in any order.
-- Cursor: pkg/cursor/cursor.go (Encode, Decode, mac, split, validateKind). Cursor/Tokens: the round trip.
-- Gateway/Checkpoints: services/gateway/v1/internal/server/checkpoint.go (record, remove and
--   deleteSynced of checkpointManager). Checkpoints/Delivery: runs of these in any order.
-- Kafka/Committer: pkg/kafka/partitionconsumer/committer.go (mark, flush with takePending, acknowledge
--   and requeue, dropPartitions). Committer/Runs: any order of marks, flushes and outcomes;
--   Committer/Order, Coverage, Lag: the records that a commit speaks for, and the counts.
-- Kafka/Partition: pkg/kafka/partitionconsumer/runtime.go (assign, enqueue, pause, setCommitBackpressure,
--   afterProcessed, revoke with removeWorkers, run and processRecord as steps, retryRecord) and the
--   defaults of consumer.go. Partition/Flow: runs of these in any order, and when fetching is paused;
--   Order: the order of the records; Retry: the retry loop.
-- User/Relationships: services/user/v1/internal/server/relationships.go, with the statements of
--   internal/store/relationships.go and queries.go. A handler is a function of the same name, and the
--   body of its transaction one of its own (request_friendship, accept_pending, decline_pending,
--   remove_any, block_any, lift_block). Relationships/Pairs, Handlers: the two rows of a pair and the
--   outbox; Blocks, Requests: what a block and a request lead to.
-- Outbox: pkg/outbox/outbox.go and the writer in services/message/v1/internal/server/outbox.go
--   (enqueueMessageEvents with insertMessageOutbox). Outbox/Relay: the statements of the relay, and
--   processShard of pkg/outbox/relay/relay.go. Tags, Streams, Rounds: what a turn of the relay makes of
--   each stream; Inserts, Writes: the same of a transaction; Delivery: any order of both; Heads, Drain:
--   a relay without failures.
-- Presence: services/presence/v1/internal (server/presence.go, server/events.go, store/redis.go), for
--   one user: the rows of the preference and of the snapshot, the handlers under the user's lock, and
--   the events. A call of Redis or Kafka is done, lost, or fails with its effect done; the snowflake
--   numbers and the live sessions are given. A lock lasts until it is given back, or expires before
--   (Lock), and then others change the rows between the calls of its handler. Of ResolveUsersPresence
--   there is what it does for one user, without the loop; an answer is recorded when its lock is given
--   back, not when the caller receives it. Presence/Transitions: what a handler does to the rows;
--   Server: the handlers; History, Calls, Reconcile, Preferences, Handlers: what
--   each keeps of the versions that were seen; Expiry, Late: a handler whose lock expires;
--   Run: runs of them.
-- Common: shared names, Boolean tests, lists measured by native numbers, association lists, integers,
--   bits, actions on a store and what holds after them.
--
-- Conventions. A critical section is one atomic step, so an interleaving of goroutines is a sequence
-- of steps. Integers of Go that the code only compares are the integers of Common/Int; counters and
-- sequences are natural numbers, and where a uint64 is incremented the wrap-around is written out
-- (u64), with the bound on 2 ^ 64 as a condition of the theorem. Strings are measured in bytes, as in
-- Go. Times are nanoseconds as natural numbers, given to each operation. A Go map, and an array of
-- shards, is a function of its key, or an association list where its size counts. A binding is
-- named by its epoch, and a lease by its place in the list of all leases. A buffered channel is the
-- list of what it holds, with its capacity; where `select` may choose between two ready cases, the
-- choice is an argument.
--
-- Fuel is not needed: every loop is over a list (a retry loop over the answers of its handler) or over a
-- number of generations.
--
-- Not modelled: the other services (authenticator, message, media, mailer, api),
-- the client connections of the gateway, the dispatcher, the loop that polls Kafka and
-- the shutdown of a consumer, the rate limiter's backend in Redis, the listener and the locks of the
-- outbox relay, the index of the sessions on a node, the routing of other events, the loads of
-- visibility snapshots, the other stores in SQL and Redis, the loads that precede a permission check, the handlers around a channel layout, user accounts and
-- profiles, metrics, traces and generated code. A run of the committer ends before it is stopped: a
-- batch that it takes when its context is cancelled is given up by the source. Of heartbeat, the
-- acknowledgement to a binding that another stream has replaced in the meantime is left out: nobody
-- reads that queue. Of resume and identify, the checks of tokens and the calls of other services
-- before and after the critical section are left out.
pub mod Common
pub mod Cursor
pub mod Gateway
pub mod Guild
pub mod Kafka
pub mod Outbox
pub mod Presence
pub mod RateLimit
pub mod Session
pub mod SocketLimit
pub mod User
