-- ===== src/Daemon.antt =====
-- daemon/: the event queue, the runtime context, and the runtime that joins them.
pub mod Queue
pub mod Context
pub mod Runtime
