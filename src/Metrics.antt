-- ===== src/Metrics.antt =====
-- metrics: the label values and the space of time series, the generic metrics, and
-- the adapters that send observations to several metrics.
pub mod Lv
pub mod Dogstatsd
pub mod Generic
pub mod Multi
pub mod Convert
pub mod Timer
pub mod Ratemap
pub mod Statsd
