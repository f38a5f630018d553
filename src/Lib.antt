-- ===== src/Lib.antt =====
-- xgameruntime-rs is a Rust implementation of the GDK's xgameruntime.dll. This library models its
-- core, the task queues and the asynchronous calls that every other object of the DLL runs on, and
-- the objects for users, saved games, the store, packages and file picks.
--
-- The parts, and the files that model them (paths from the repository's root):
--   * src/results.rs: the status codes, in Results.antt.
--   * src/com/handle_table.rs: `HandleTable`, in HandleTable.antt, with its laws in
--     HandleTable/Laws.antt and, over sequences of operations, HandleTable/History.antt. The mutex
--     and the atomic counter make each operation one step; the counter wraps at 2^64.
--   * src/com/xasync/task_queue.rs, ports: `DispatchMode` and `PortKind` in TaskQueue/Modes.antt;
--     `Task`, `PortState` and every lock hold of `Port`'s methods in TaskQueue/Port.antt; the methods
--     made of several lock holds (`submit`, `terminate_context`, `wait_for_task`, `dispatch`) in
--     TaskQueue/Port/Calls.antt. Port/Order.antt, Port/Batches.antt, Port/Waiting.antt and
--     Port/Termination.antt are about the order of the callbacks, what a lock hold takes off the
--     port, waiting and dispatch, and termination.
--   * the same under threads: TaskQueue/Traffic.antt has one step for each lock hold, and steps of
--     different threads interleave freely; TaskQueue/Traffic/Safety.antt is its invariant.
--   * src/com/xasync/task_queue.rs, queues: `PortContext`, `Queue`, `QueueHandle`, `PortHandle` and
--     the process queue in TaskQueue/Queue.antt, what calls back into the title (`Queue::submit`,
--     monitors, `Queue::terminate`) in TaskQueue/Queue/Calls.antt. Queue/Isolation.antt,
--     Queue/Repeated.antt and Queue/ProcessQueue.antt are about shared ports and the process queue;
--     Queue/Frame.antt says what a submission can change.
--   * src/com/xasync/impl.rs, `XTaskQueue*`: XTaskQueue.antt, with XTaskQueue/Errors.antt,
--     XTaskQueue/Handles.antt and XTaskQueue/Current.antt.
--   * src/com/xasync/core.rs and src/com/xasync/impl.rs, `XAsync*`: the block and its private bytes
--     in XAsync/Block.antt; the calls, their completion and cleanup in XAsync/Engine.antt; the
--     exports in XAsync/Engine/Exports.antt. XAsync/Engine/Invariant.antt says what holds between
--     calls, Engine/Progress.antt, Engine/Steps.antt and Engine/Sessions.antt that it is kept, and
--     Engine/Late.antt is about the end of a call.
--   * src/ipc.rs, the request over loopback TCP: the endpoint in Ipc/Endpoint.antt; handshake,
--     framing and typed exchange in Ipc.antt, with Ipc/Framing.antt and Ipc/Exchange.antt. The
--     service is a parameter (`Peer`), and so are the XML serializer and parser.
--     The codecs and the single requests are in Ipc/Base64.antt and Ipc/Requests.antt.
--   * src/com/xasync/mod.rs, the provider behind the crate's own blocking calls: XAsync/RunSync.antt,
--     with RunSync/Completing.antt, RunSync/Handover.antt, RunSync/Polling.antt, RunSync/Outcome.antt,
--     RunSync/Routing.antt and RunSync/Start.antt. Its contexts and jobs, and the title's memory, are
--     part of the engine.
--   * unixlib/src/lib.rs, the native half that reaches the service's Unix socket: Unixlib.antt, with
--     the socket's loops in Unixlib/Socket.antt. src/ipc/unixlib.rs, the request through it, in
--     Ipc/Unix.antt; how it is found and chosen in Ipc/Transport.antt. Socket/Transfer.antt,
--     Unix/RoundTrip.antt and Unix/Boxes.antt are about what arrives and what is left behind.
--   * src/com/xgame.rs and the config of src/ipc.rs: the title's identity in Title.antt, with
--     Title/Config.antt.
--   * src/lib.rs and the registry of src/com/mod.rs: Runtime.antt, with Runtime/Sessions.antt.
--   * src/com/xgamesave/storage.rs and src/com/xgamesave/object.rs: the file system, a parameter, in
--     GameSave/Files.antt; containers, quota and enumeration in GameSave/Storage.antt; updates, the
--     batches of blob changes, in GameSave/Update.antt; the exports and handle tables in
--     GameSave/Object.antt, Object/Updates.antt and Object/Folder.antt. Update/Batch.antt and
--     Update/Commit.antt say what a batch is as a map and what carrying it out does,
--     Object/Session.antt puts them together with the handles, and Object/Visits.antt is about the
--     enumerations.
--   * src/com/xuser/core.rs and src/com/xuser/impl.rs: users, handles, registry and change events in
--     User.antt, the exports in User/Exports.antt, the results of variable length in
--     User/Buffers.antt, and the exports that start fetching those in User/Requests.antt.
--     User/Requests/Fetched.antt is about the two together. User/Invariant.antt and User/Steps.antt
--     are about every state that the steps of calls reach, one step for what a call does under one
--     lock, User/Runs.antt takes whole calls apart into such steps, User/SignIn.antt is about adding a
--     user again, User/Buffers/Layout.antt and Layout/Utf16.antt are about memory.
--   * src/com/xstore.rs: license, product queries and opaque strings in Store.antt, with
--     Store/Queries.antt and Store/Opaque.antt. The exports on top of them are in Store/Exports.antt,
--     with Store/Exports/Fetches.antt.
--   * src/com/pickers/async_op.rs: the operation of a file pick in Picker.antt, with
--     Picker/Completion.antt.
--   * src/com/pickers/deferred.rs: work that waits for the message loop in Picker/Deferred.antt, with
--     Picker/Deferred/Order.antt.
--   * src/com/xpackage.rs and src/com/xpersistent_local_storage.rs: mounts, paths and the user's
--     locale in Package.antt, with Package/Paths.antt.
-- Base.antt and its children hold what these share: tests on numbers, 64-bit words, lists,
-- association lists, heaps, memory and counting.
--
-- How they interact: an export finds a call through its block (`state_of`), and drives its provider
-- on the work port of the call's queue; completing the call hands the title's routine to the
-- completion port. A queue is two contexts, each on a port that other queues may share. Handles
-- stand for queues and ports at the interface.
--
-- Conventions. An `Arc` is a reference into a heap, a null pointer is 0, an out-pointer is a flag
-- with an optional value written. A callback, a provider, a monitor or a routine is a number, and
-- what running one does to the whole state is a parameter (`Stage`, `Environment`): it may call
-- back into the runtime. Time is in nanoseconds and read through a parameter. A method that waits
-- takes the list of the states that it wakes up to; where that list ends before the wait does, the
-- answer is that it still waits. `nested` lets queues run the engine's own callbacks inline to any
-- given depth. Log lines, the port reporter, reference counts and poisoned mutexes are left out.
-- An Async export of users and saved games is the body that it hands to `run_sync`, as a function
-- of the state that it runs in. In saved games, names and paths are interned as numbers and the
-- content of files is bytes.
-- Not modelled are the other interfaces built on top (dialogs, networking, and those that mostly
-- give fixed answers) and the waiter threads of `XTaskQueueRegisterWaiter`.
pub mod Base
pub mod HandleTable
pub mod Results
pub mod TaskQueue
pub mod XTaskQueue
pub mod XAsync
pub mod Ipc
pub mod GameSave
pub mod Unixlib
pub mod User
pub mod Store
pub mod Picker
pub mod Title
pub mod Runtime
pub mod Package
