-- ===== src/XAsync.antt =====
-- src/com/xasync: the asynchronous-call engine. `Block` is the title's `XAsyncBlock` with the
-- runtime's 32 private bytes, `Engine` the state of the calls and what completes and cleans them
-- up, `Exports` the `XAsync*` methods, and `RunSync` the provider behind the crate's own calls.
pub mod Block
pub mod Engine
pub mod RunSync
mod Witnesses
