-- ===== src/Instrument.antt =====
-- Traces and metrics: src/instrument.
pub mod TraceContext
pub mod Prometheus
