-- ===== src/Drivers.antt =====
-- src/drivers: what the daemon runs a harness through.
pub mod Terminal
pub mod Tailer
pub mod Runtime
pub mod SessionDriver
