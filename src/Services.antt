-- ===== src/Services.antt =====
-- src/client/src/services: the services behind the user interface, their models and mappers.
pub mod Models
pub mod ReferenceData
pub mod Mappers
pub mod Pricing
pub mod Execution
pub mod CompositeStatus
pub mod Streams
