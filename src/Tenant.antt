-- ===== src/Tenant.antt =====
-- trpcservice/tenant: tenants, their identities and their repository.
pub mod Identity
pub mod Settings
pub mod Roots
pub mod Repository
