-- ===== src/Security.antt =====
-- src/util/security: which keys and values are sensitive, and how they are masked in the logs.
pub mod Keywords
pub mod Fragments
pub mod Classify
pub mod Pan
pub mod Mask
pub mod Sanitize
mod Tests
