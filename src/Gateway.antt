-- ===== src/Gateway.antt =====
-- apps/gateway/src: admission of requests and streams.
pub mod RateLimit
pub mod Streams
pub mod ChatStore
pub mod Events
pub mod Claims
