-- ===== src/Tests.antt =====
-- The theorems applied to concrete inputs, with runs of the definitions.
mod Recovery
mod Util
mod Jobs
mod Engine
mod Registry
mod Tunneling
mod Config
mod Documents
mod Settings
mod Starting
