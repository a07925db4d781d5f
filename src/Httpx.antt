-- ===== src/Httpx.antt =====
-- The middleware of httpx/.
pub mod Ip
pub mod Recorder
pub mod Web
pub mod Redact
pub mod Body
pub mod Record
pub mod Envelope
pub mod Recover
pub mod Header
pub mod Middleware
pub mod Transports
pub mod Logger
pub mod Tests
