-- ===== src/Preprocessor.antt =====
-- pkg/server/preprocessor: what happens to a request before its handler.
pub mod Auth
pub mod Inject
