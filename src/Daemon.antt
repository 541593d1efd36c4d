-- ===== src/Daemon.antt =====
-- gitlexd (src/gitlexd): the tickets of a soul's sync loop, the list of souls and the store swap
-- (daemon.rs), and the gate in front of its routes (http.rs).
pub mod Tickets
pub mod Souls
pub mod Swap
pub mod Http
