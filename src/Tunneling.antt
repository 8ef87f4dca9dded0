-- ===== src/Tunneling.antt =====
-- Secure tunneling: source/tunneling.
pub mod TcpForward
pub mod Context
pub mod Feature
