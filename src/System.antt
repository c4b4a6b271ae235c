-- ===== src/System.antt =====
-- The client's infrastructure: src/client/src/system.
pub mod Connection
pub mod Service
pub mod Retry
pub mod OpenFin
pub mod Router
pub mod Guard
pub mod Logger
pub mod Transport
