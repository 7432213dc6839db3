-- ===== src/Handler.antt =====
-- pkg/server/handler: the actions that save and delete records.
pub mod Atomic
pub mod Results
pub mod Saving
pub mod Deleting
