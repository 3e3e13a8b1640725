-- ===== src/Observability.antt =====
-- packages/observability: the metrics of the services, and what the parser service adds to them.
pub mod Metrics
pub mod Recorders
