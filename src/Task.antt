-- ===== src/Task.antt =====
-- The task subsystem: the files of zproc/task, and the task ids of zproc/util.py.
pub mod Ids
pub mod MapPlus
pub mod Chunks
pub mod Result
pub mod Swarm
pub mod Worker
pub mod Map
pub mod Workers
pub mod Server
