-- ===== src/X402.antt =====
-- HTTP 402 payments: src/x402.
pub mod Dict
pub mod NonceCache
pub mod Proof
pub mod Base58
pub mod Transaction
pub mod Verify
pub mod Middleware
pub mod Client
