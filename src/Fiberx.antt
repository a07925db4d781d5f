-- ===== src/Fiberx.antt =====
-- The middleware of fiberx/fiberx.go.
pub mod Body
pub mod Handlers
pub mod Record
pub mod Responses
mod Tests
