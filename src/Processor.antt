-- ===== src/Processor.antt =====
-- src/geotrack/processor: what turns batches of reports into positions, presence and alerts.
pub mod Tables
pub mod Reports
pub mod Transitions
pub mod Statement
pub mod Batch
pub mod Leases
pub mod Service
pub mod Consumer
pub mod Publisher
