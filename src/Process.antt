-- ===== src/Process.antt =====
-- Child processes: zproc/child.py, zproc/process.py and the `ProcessList` of zproc/context.py.
pub mod Child
pub mod Handle
pub mod Spawn
pub mod Group
pub mod Context
pub mod Outcome
pub mod Tree
