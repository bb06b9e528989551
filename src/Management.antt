-- ===== src/Management.antt =====
-- management/: the requests that the daemon answers on its socket.
pub mod Protocol
pub mod Server
pub mod Refinement
mod Tests
