-- ===== src/Tests.antt =====
-- Runs of the definitions on concrete inputs, with integer coordinates for Python's floats.
mod Realtime
mod Processor
mod Leases
mod Postfix
mod Ingest
mod Consumer
mod Gateway
mod Generator
