-- ===== src/State.antt =====
-- The state subsystem: the files of zproc/state.
pub mod Server
pub mod Handlers
pub mod Loop
pub mod Client
pub mod Watcher
pub mod When
pub mod Start
