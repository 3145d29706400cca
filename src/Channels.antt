-- ===== src/Channels.antt =====
-- trpcservice/channels: bindings of tenants to IM channels.
pub mod Routing
