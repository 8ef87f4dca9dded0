-- ===== src/Shadow.antt =====
-- The shadows, source/shadow.
pub mod ConfigShadow
