-- ===== src/Collector.antt =====
-- main.go: the collector, which reads pools, vdevs and datasets and exports them as metrics.
pub mod Props
pub mod Vdev
pub mod Export
pub mod Descs
pub mod Describe
pub mod Naming
pub mod Metrics
pub mod Pool
mod Tests
