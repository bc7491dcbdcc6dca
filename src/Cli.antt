-- ===== src/Cli.antt =====
-- src/cli: the model picker of the setup screens.
pub mod Picker
