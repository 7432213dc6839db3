-- ===== src/Plugin.antt =====
-- pkg/server/plugin: the functions that a plugin hooks into the saving and deleting of records.
pub mod Hook
