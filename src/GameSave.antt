-- ===== src/GameSave.antt =====
-- src/com/xgamesave: save games on disk. `Files` is the file system that it runs over, `Storage` the
-- engine of storage.rs, `Update` the batch of blob writes and deletes, `Object` the `XGameSave*`
-- methods of object.rs.
pub mod Files
pub mod Storage
pub mod Update
pub mod Object
