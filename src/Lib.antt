-- ===== src/Lib.antt =====
-- turul-a2a, a server framework for the A2A agent protocol: the core that decides what a task is
-- and what may happen to it, and the in-memory storage backend that keeps it.
--
-- Parts, and how they interact. A request handler writes a task through the storage traits; each
-- write asks the state machine of the types crate whether the transition is allowed, stamps the
-- time of the status, numbers the events of the write and keeps them for subscribers, and leaves a
-- mark for the push dispatcher. Delivery workers claim a delivery, record its attempts and its
-- outcome. A background job cleans up. All of this is modelled for
-- crates/turul-a2a/src/storage/in_memory.rs, which implements every storage trait on one struct. On
-- top of it stand the writer that an executor is given (the event sink, with the handle of its
-- task), the stream that a subscriber reads, the worker that delivers a notification, and the
-- middleware that a request passes. At the other end the client reads the events of a stream back.
--
-- Files:
--   Prelude, Dict        shared names; a HashMap as a list of entries, where insert replaces the
--                        entry of its key; iteration is in list order
--   TaskState            TaskState, the proto enum, validate_transition and the lists of states
--                        (crates/turul-a2a-types/src/task.rs, state_machine.rs)
--   TaskState/Lifecycle  the state diagram as a relation
--   Message, Task        messages, parts, artifacts, tasks and statuses (the messages of
--                        crates/turul-a2a-proto/proto/a2a.proto and the methods of task.rs)
--   Streaming            StreamEvent (crates/turul-a2a/src/streaming/mod.rs)
--   Storage/Clock        now_iso, epoch_secs, stamp_status, sort keys (in_memory.rs, status_time.rs)
--   Storage/State        the fields of InMemoryA2aStorage and its rows, A2aStorageError
--   Storage/Action       a method as a function of the store to a Result and a store
--   Storage/Tasks        impl A2aTaskStorage; append_message and append_artifact are store_message
--                        and store_artifact here
--   Storage/Listing      list_tasks, its filter and its cursor (filter.rs, status_time.rs)
--   Storage/Supervisor   impl A2aCancellationSupervisor
--   Storage/Configs      impl A2aPushNotificationStorage
--   Storage/Events       impl A2aEventStore and the loop that appends events
--   Storage/Cleanup      cleanup_expired
--   Storage/Atomic       impl A2aAtomicStore
--   Storage/Claims, Failed   impl A2aPushDeliveryStore
--   Storage/Requests     every writing call as data, and sequences of calls
--   Storage/Reads, Sequence, Kept, Terminal, Replay, ClaimRows, Fencing, Atomicity, Cancellation,
--   Isolation, Registration, Pending, Marks, Epoch, Sweeps   lemmas and theorems
--   Storage/Named, Growth    rows under their ids, and logs that only grow, for the modules below
--   Errors               A2aError and its codes on each transport (crates/turul-a2a/src/error.rs)
--   Server/Handle        InFlightHandle and InFlightRegistry (crates/turul-a2a/src/server/in_flight.rs)
--   Server/Sink          EventSink (crates/turul-a2a/src/event_sink.rs)
--   Server/Subscription  task_event_stream (crates/turul-a2a/src/streaming/task_stream.rs)
--   Push/Ssrf            the guard on addresses and URLs (crates/turul-a2a/src/push/ssrf.rs)
--   Push/Lookup          DeliveryTargetLookup and PushConfigCache (push/delivery.rs)
--   Push/Worker, Persist, Delivery   PushDeliveryWorker (push/delivery.rs): its settings and the
--                        script of a delivery, terminal writes, deliver and its loop
--   Middleware           MiddlewareStack, AnyOfMiddleware and MiddlewareError
--                        (crates/turul-a2a/src/middleware)
--   Auth                 ApiKeyMiddleware, BearerMiddleware (crates/turul-a2a-auth/src)
--   Client               SseStream and parse_sse_event (crates/turul-a2a-client/src/sse.rs)
--   Their child modules  lemmas and theorems
--   Tests                the theorems at small concrete stores
--
-- Conventions. A method that holds its locks from its first read to its last write is one step,
-- and an execution is a sequence of such steps. The locks themselves are not modelled, nor that
-- calls can block each other: create_config takes tasks before push_configs,
-- update_task_status_with_events takes push_configs before tasks when push dispatch is on, and the
-- two can wait for each other. create_config waits between two locks: what the other calls do
-- meanwhile is a parameter (the record Others), and in a sequence of calls it takes part with the
-- write that it makes under its lock. cleanup_expired releases its locks between batches; no other
-- call runs between two of them here. All clock reads of one call give one time, `now`,
-- nanoseconds since the epoch. Code of chrono, serde_json and prost is a parameter (the record
-- Environment in Storage/Clock).
--
-- A call of the sink is one step, as it holds the sink's lock; the read and the write of an
-- artifact have updates by others between them. A delivery and a stream are given what the world
-- does in each round: the calls of others before each call of the store, the calls that a backend
-- fails, the answers of DNS and of the receiver. The proof that a delivery never connects to a
-- blocked address is about the address that the HTTP client is pinned to.
--
-- Bounds. Event counters and claim generations are u64 values that grow by one; they are unbounded
-- here. The attempt counter is a u32 that saturates, written out. A signed 32-bit or 64-bit field
-- is an integer. The loops of cleanup_expired take fuel, one more than the rows that they may
-- delete: only a batch that is full is followed by another. The loop of deliver takes fuel, one
-- more than max_attempts: each round that goes on has raised the count. JSON numbers are kept as
-- texts.
--
-- Not modelled: the Postgres, SQLite and DynamoDB backends, whose steps are statements of
-- third-party engines; the HTTP, JSON-RPC and gRPC servers, the Tower layer and the Lambda
-- adapter, which connect library code; the push dispatcher, which spawns deliveries; the broker,
-- which only wakes subscribers; detached event sinks, whose calls only fail; the requests and the
-- typed events of the client; the patterns crate; the JWT validator, a third-party crate.
pub mod Prelude
pub mod Dict
pub mod TaskState
pub mod Message
pub mod Task
pub mod Streaming
pub mod Storage
pub mod Errors
pub mod Server
pub mod Push
pub mod Middleware
pub mod Client
pub mod Auth
pub mod Tests
