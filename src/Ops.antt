-- ===== src/Ops.antt =====
-- What surrounds the endpoints: logging, the request middleware, probes and clients of other services.
pub mod Logging
pub mod Requests
pub mod Probes
pub mod Clients
