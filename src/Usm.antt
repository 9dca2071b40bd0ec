-- ===== src/Usm.antt =====
-- The user-based security model: pysnmp/proto/secmod/rfc3414/ with the SHA-2 services of rfc7860/.
pub mod Mac
pub mod State
pub mod User
pub mod Checks
pub mod Incoming
pub mod Sender
pub mod Outgoing
pub mod Exchange
mod Tests
mod SendTests
