-- ===== src/Middleware.antt =====
-- The middleware that stands before the handlers: each takes the next handler and gives a handler.
pub mod Subnet
pub mod Signature
pub mod Encryption
pub mod Gzip
pub mod Chain
pub mod Logger
mod Tests
