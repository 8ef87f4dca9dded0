-- ===== src/Util.antt =====
-- The utilities: source/util.
pub mod Retry
pub mod StringUtils
pub mod FileUtils
