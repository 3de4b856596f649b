-- ===== src/Ingest.antt =====
-- src/geotrack/ingest, its schemas and its routes: how reports reach the ingest streams.
pub mod Backlog
pub mod Schemas
pub mod Service
pub mod Shards
pub mod Key
pub mod Device
pub mod Route
