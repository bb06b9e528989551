-- ===== src/Transport.antt =====
-- transport/: the codebook of the device's key codes, and the parser that turns key events into
-- control events.
pub mod Codebook
pub mod Parser
