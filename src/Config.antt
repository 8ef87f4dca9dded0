-- ===== src/Config.antt =====
-- The configuration, source/config/Config.cpp.
pub mod Requirements
pub mod Json
pub mod CommandLine
pub mod Tunneling
pub mod LogConfig
pub mod HttpProxy
pub mod Jobs
pub mod DeviceDefender
pub mod ConfigShadow
pub mod FleetProvisioning
pub mod PubSub
pub mod SampleShadow
pub mod SecureElement
pub mod SensorPublish
pub mod RoundTrip
pub mod PlainConfig
pub mod Init
