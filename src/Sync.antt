-- ===== src/Sync.antt =====
-- `git lex sync` (src/sync.rs): the batched load of a full rebuild, the refresh of the now view, and
-- the choice between doing nothing, appending and rebuilding.
pub mod Loader
pub mod NowView
pub mod Resume
pub mod History
