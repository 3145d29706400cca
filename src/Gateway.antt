-- ===== src/Gateway.antt =====
-- trpcservice/gateway: the boundary that every request crosses.
pub mod Messages
pub mod Limits
pub mod Principals
pub mod Idempotency
