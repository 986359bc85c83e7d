-- ===== src/Driver.antt =====
-- internal/driver: what the controller and the node services share, and the node service.
pub mod Status
pub mod Claims
pub mod Tenant
pub mod Recovery
pub mod Exits
pub mod Settings
pub mod Node
pub mod Watch
pub mod KeyLock
mod Tests
