-- ===== src/Instrument/Prometheus.antt =====
-- The metrics of src/instrument/prometheus.
pub mod Metric
pub mod Histogram
pub mod Registry
