-- ===== src/Tests.antt =====
-- Runs of the laws on concrete sessions, events and claims.
mod Fixtures
mod Core
mod Drivers
mod Store
mod Ledger
mod Links
mod Review
mod Picker
mod Web
mod Persist
mod Ipc
mod SessionDriver
mod WebSupervisor
mod Daemon
mod Stream
