-- ===== src/Web.antt =====
-- src/web: the checks that stand before the routes of the web console.
pub mod Host
pub mod Security
pub mod Server
