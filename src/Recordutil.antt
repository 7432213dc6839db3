-- ===== src/Recordutil.antt =====
-- pkg/server/recordutil/recordutil.go: reading, saving and filtering records for a user.
pub mod Delta
pub mod Scrub
pub mod Fetch
pub mod Modify
pub mod Assets
pub mod Save
pub mod Delete
pub mod SchemaMerger
