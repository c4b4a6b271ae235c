-- ===== src/System/Service.antt =====
-- src/client/src/system/service: the client of a back end service that has several instances.
pub mod Status
pub mod Dictionary
pub mod MinLoad
pub mod Heartbeats
pub mod Instances
pub mod Operations
pub mod Tests
pub mod Client
