-- ===== src/Config/PlainConfig.antt =====
-- config/Config.cpp: PlainConfig, the configuration made of the sections, as it is built with all
-- features. A load that returns false, or that an exception leaves, has the flag false.
mod State
mod Checking
pub mod Serializing
pub mod Requirements
pub mod Acceptance
pub mod Idle
pub mod Reloads
pub mod RoundTrip
unfoldable pub use State.*
unfoldable pub use Checking.*
