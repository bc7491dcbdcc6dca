-- ===== src/Git.antt =====
-- src/git: what is read off git.
pub mod Review
