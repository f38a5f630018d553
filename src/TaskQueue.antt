-- ===== src/TaskQueue.antt =====
-- src/com/xasync/task_queue.rs: the native task queue. `Modes` are its two enumerations, `Port` is
-- an ordered list of callbacks with the calls that fill and empty it, `Queue` a pair of ports with
-- its monitors.
pub mod Modes
pub mod Port
pub mod Traffic
pub mod Queue
