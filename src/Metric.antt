-- ===== src/Metric.antt =====
-- pkg/util/metric: the counters of the statistics.
pub mod Word
pub mod Counter
pub mod DateCounter
