-- ===== src/Examples.antt =====
-- The theorems on concrete inputs.
mod StateServer
mod Clients
mod Watching
mod Asking
mod Ending
mod Tasks
mod TaskServer
mod Processes
mod Counting
mod Requests
mod Starting
mod Swarms
