-- ===== src/Messaging.antt =====
-- src/geotrack/messaging: the wire formats between the edge, the processors and the gateways.
pub mod Json
pub mod Codec
