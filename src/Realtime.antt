-- ===== src/Realtime.antt =====
-- src/geotrack/realtime: what a gateway replica knows, and what it sends to its browsers.
pub mod Grid
pub mod Hub
pub mod Protocol
pub mod Connection
pub mod Registry
pub mod Bridge
pub mod Messages
pub mod Gateway
pub mod Admission
