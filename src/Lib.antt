-- ===== src/Lib.antt =====
-- GeoTrack: devices report positions; a processor turns batches of reports into stored positions,
-- presence in zones and alerts; a gateway shows each browser the devices in its viewport. This
-- library models the parts that decide, and leaves the network and the database's engine out.
--
-- Reports pass from the ingest endpoints through Redis streams, one for each shard, to the
-- processor (src/geotrack/processor). It applies a batch in one transaction and publishes the
-- accepted positions. The gateway (src/geotrack/realtime) applies those to its hub, drains the hub
-- at each tick, and offers the drained delta to every connection, which keeps what its viewport
-- covers.
--
-- Prelude holds what the parts share: tests and lists over the native numbers, Python's dicts
-- (Prelude/Dict) and nested containers (Prelude/Index), integers (Prelude/Int), texts and results.
-- Float is Python's float as a parameter.
-- Geo models src/geotrack/geo.py: `BBox` with its checks, and how it splits at the antimeridian.
-- Realtime/Grid models src/geotrack/realtime/grid.py: cells and the rectangles of a viewport.
-- Realtime/Hub models src/geotrack/realtime/hub.py. Its record has the fields of `PositionHub`;
-- `touch`, `leave`, `apply`, `sweep`, `drain`, `snapshot_chunks` and `warm_start` are its methods, a
-- `KeyError` being `none`. Hub/Writes states what a write changes for a cell and a device,
-- Hub/Picture and Hub/Indexed the invariants, Hub/Drain what a drain gives.
-- Realtime/Protocol models the position frame of src/geotrack/realtime/protocol.py.
-- Realtime/Registry models src/geotrack/realtime/registry.py: a step is what runs between two awaits
-- (Registry/Settled, Registry/Life). Realtime/Bridge models src/geotrack/realtime/bridge.py: the
-- subscriptions (Bridge/Converges) and what a message does (Bridge/Delivers). Realtime/Messages
-- models `parse_client_message` of protocol.py, Realtime/Gateway the fan-out of a tick and the reader
-- of a client's messages in src/geotrack/realtime/gateway.py (Gateway/FanOut, Gateway/Budget),
-- Realtime/Admission the cap on a user's sessions there (Admission/Cap).
-- Realtime/Connection models src/geotrack/realtime/connection.py.
-- Connection/Told and Connection/Removed relate the hub's pending changes to what a frame carries
-- and removes, Connection/Convergence takes a client through a tick, Connection/Revisit through a
-- detour, Connection/Chunks compares the two joins, Connection/Bounds bounds what is queued.
-- Connection/Sender models the write of a frame, with its end in Sender/Writes.
-- Processor/Tables, Processor/Transitions and Processor/Statement model the SQL of
-- src/geotrack/processor/batch.py: one function for each common table expression, all reading the
-- tables as they are before the statement. Statement/Events, Statement/Presence,
-- Statement/Replay and Statement/Order hold the proofs. Processor/Batch models the Python around
-- it, with the answer of the database to each attempt as a parameter; its modules prove what is
-- split off (Batch/Split), kept (Batch/Latest) and repeated (Batch/Retry).
-- Processor/Leases models `fair_share_plan` of src/geotrack/processor/leases.py, with its proofs in
-- Leases/Plan; a set of shards is a list. Leases/Manager models the leases and their scripts over
-- a store that answers as Redis documents, and Leases/Owner says who can change a lease.
-- Leases/Ring says that its candidates stand there once. Processor/Service models the ownership of
-- shards in src/geotrack/processor/service.py: Service/Candidates, Service/Steps and Service/OneReader follow the
-- rounds of a replica, Service/Stopped its shutdown.
-- Messaging/Json is what orjson reads and writes, a parameter; Messaging/Codec models
-- src/geotrack/messaging/codec.py, and Codec/RoundTrip what passes through it.
-- Processor/Consumer models `ShardConsumer` of src/geotrack/processor/consumer.py, one round at a
-- time, over a stream that answers; Consumer/Leaves says what a batch leaves on the stream,
-- Consumer/Pending follows the rounds, and Consumer/Letters one batch, with the batch processor as
-- its database.
-- Processor/Publisher models src/geotrack/processor/publisher.py (Publisher/Chunks).
-- Ingest/Backlog models src/geotrack/ingest/backlog.py (Backlog/Hysteresis: the gate over time),
-- Ingest/Schemas src/geotrack/schemas/ingest.py (Schemas/Limits), Ingest/Service
-- src/geotrack/ingest/service.py and src/geotrack/sharding.py (Service/Streams: what each shard's
-- consumer will read), Ingest/Shards src/geotrack/ingest/shards.py (Shards/Agreement), Ingest/Key the
-- check of a device's key in src/geotrack/api/deps.py.
-- Ingest/Device models src/geotrack/api/routes/ws_ingest.py, `_DeviceSession` as a record and each of
-- its methods as a step that may end in an exception (Device/Budget, Device/Answers,
-- Device/Shedding). Ingest/Route models src/geotrack/api/routes/ingest.py (Route/Answers).
-- Generator models generator.py: Generator/Motion how a device moves, Generator/Fleet the
-- deadlines (Fleet/Deadlines, Fleet/Once: a device has one), Generator/Batcher the requests
-- (Batcher/Drained), Generator/Stats the counters and the pauses. Generator/Http is `HttpRunner` as
-- what its tasks do between two awaits, with its account in Http/Accounts, Http/Balance and
-- Http/Run; Generator/Socket is `WebsocketWorker`, with what it waits for in Socket/Pending, its
-- frames in Socket/Delivered, its answers in Socket/Answers and its life in Socket/Run.
-- Generator/Settings is `parse_config`, after argparse (Settings/Valid).
-- Tests runs the definitions on concrete inputs.
--
-- Numbers: times are milliseconds, as integers (microseconds in the window of a report's time,
-- nanoseconds for the monotonic clock of a device's session), and floats in the generator.
-- Python's integers and PostgreSQL's bigints do not wrap where the code uses them here. The retry loop runs on fuel, one more than `max_attempts`:
-- each failure that is repeated counts towards `max_attempts`, so it ends before. The loop over the
-- generator's batcher runs on as many rounds as there are reports, and one more: each takes a report.
--
-- Not modelled: sockets, Redis, SQLAlchemy and FastAPI, which the code only calls; metrics and
-- logs; the heartbeats and the start of processors; the tasks of the bridge and of the gateway; the
-- directory of sessions; the time limits of single calls; the retention of history; the generator's summary, its
-- file limit and its signals; the queries of the repositories and the routes over them. PostGIS,
-- the collation, orjson, pydantic and the checksum are parameters. Sets are lists in the order of
-- insertion, where Python leaves the order open.
pub mod Prelude
pub mod Float
pub mod Geo
pub mod Realtime
pub mod Processor
pub mod Messaging
pub mod Ingest
pub mod Generator
pub mod Tests
