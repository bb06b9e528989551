-- ===== src/Configurator.antt =====
-- configurator/: the editing of configurations.
pub mod Draft
pub mod ActionSpec
pub mod Serializer
pub mod Validation
pub mod Save
pub mod Diff
pub mod Web
