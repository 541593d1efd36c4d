-- ===== src/Tests.antt =====
-- The theorems at concrete inputs.
mod Facts
mod Texts
mod Ids
mod Gitlexd
mod Stores
mod Syncs
mod Views
mod Registries
mod Documents
mod Commits
mod Graphs
mod Walks
mod Sidecars
