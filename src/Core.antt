-- ===== src/Core.antt =====
-- The core app: the shared cache and the leases on it, rate limits, the request middleware, the
-- retention of data, the contact form, and the probe that tells whether a worker may serve.
pub mod Cache
pub mod Lease
pub mod Throttling
pub mod Middleware
pub mod Retention
pub mod Health
pub mod Contact
