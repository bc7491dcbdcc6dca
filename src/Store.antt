-- ===== src/Store.antt =====
-- src/store: the tables of codedeck.db. A table is the list of its rows in the order of insertion.
pub mod Events
pub mod Paths
pub mod Claims
pub mod Sessions
pub mod Ledger
pub mod Links
