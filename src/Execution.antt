-- ===== src/Execution.antt =====
-- execution/: running a plan's actions, and the policy and output limits of commands.
pub mod Command
pub mod Runner
pub mod Engine
