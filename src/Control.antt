-- ===== src/Control.antt =====
-- control/: the controls, layers and profiles of a configuration, the actions bound to controls, and
-- how an event is resolved into the actions to run.
pub mod Models
pub mod Actions
pub mod Flatten
pub mod Resolver
pub mod Config
mod Tests
