-- ===== src/Lib.antt =====
-- rustRoast: a server for coffee roasters. Devices send telemetry over MQTT, over WebSockets or
-- over Modbus, and take commands; a server keeps the newest telemetry, records it in the roast
-- sessions of a database, and offers HTTP routes and a Modbus TCP server of its own.
--
-- The parts and their files:
-- - Topics: crates/core/src/topics.rs, which builds the MQTT topics of a device, and
--   `parse_roaster_topic` of crates/server/src/main.rs, which reads them. `format!` is
--   concatenation, and `split('/')` a recursion over the text.
-- - Models: the enums of crates/server/src/models.rs with their text forms, which are what the
--   database holds, and the records of devices.
-- - Modbus: crates/server/src/modbus.rs. The shared state of all connections is a record; each
--   request is a function from the state to an answer, the next state and the messages published.
--   A panic is `none`.
-- - Poller: crates/server/src/device_poller.rs, one poll of a Modbus device, whose two batch reads
--   are arguments, the loops that are started, and their waits.
-- - Mqtt: crates/mqtt/src/client.rs. The event loop is a step for each polled event; a history of
--   such steps, calls of `subscribe` and of `disconnect` stands for any interleaving of them.
--   Mqtt/Config is crates/mqtt/src/config.rs, the configuration from the environment.
-- - Control: the control and autotune routes of crates/server/src/main.rs, which check a request
--   and send a command to a device over its WebSocket or over MQTT, and the registry of the
--   channels of the connected devices. A history of events stands for any interleaving of requests
--   and connections; what the MQTT client and the clock answer is an argument of each request.
-- - Sessions: `RoastSessionService` of crates/server/src/services.rs, from creating a session to
--   completing and deleting it, with its events and telemetry. A table is a list of rows, a
--   statement a function on the tables that keeps the keys of crates/server/migrations, and an
--   error of the database is a result; the clock and new UUIDs are arguments. Several statements
--   of one call run with no other call between them. Sessions/Routes has the handlers of
--   crates/server/src/main.rs that change a session, Sessions/Queries the lists, and
--   Sessions/EventUpdate the update of an event, whose statement is built from the request.
-- - Cupping: the cupping notes of a session, in crates/server/src/services.rs and main.rs.
-- - Csv: the CSV export of a session. What the crate `chrono` prints of a time is a parameter.
-- - Details: a session with its telemetry, its profile of Profiles and its cupping of Cupping.
-- - Settings: the routes of the settings in crates/server/src/main.rs, over the table that the
--   figures of a completed roast in Sessions are computed with.
-- - Telemetry: `process_telemetry` of crates/server/src/telemetry.rs, through which the telemetry
--   of every protocol goes. Its state holds what it writes: caches, tables and broadcasts.
-- - RegisterMaps: `set_register_map` of crates/server/src/services.rs, a transaction.
-- - Tables: rows of the database as lists, with the statements that the services make.
-- - Devices: `DeviceService` of crates/server/src/services.rs, with its profiles, connections and
--   register maps, and the handlers of crates/server/src/routes/devices.rs over it. A history of
--   requests, each with the clock and the new UUID it is handled with, stands for any client.
-- - Profiles: the roast profiles and their points, in crates/server/src/services.rs, and
--   their handlers in crates/server/src/main.rs.
-- - Artisan: the import of an Artisan file as a profile, from the text through the JSON value to the
--   rows, and the export of a session. The JSON parser and the clock's formats are parameters.
-- - Consumer: `mqtt_consumer_loop` of crates/server/src/main.rs, which takes the events of Mqtt,
--   reads their topics with Topics, hands telemetry to Telemetry and new devices to Devices. An
--   event that the channel drops because the consumer lags is one that it does not get.
--   Consumer/DeviceSocket has the telemetry of a device over its WebSocket.
-- - Dashboards: the two loops of crates/server/src/main.rs that show telemetry and MQTT events to
--   WebSocket clients. A sequence of rounds of the clients stands for any interleaving.
-- - History: the read endpoints of crates/server/src/main.rs over the tables and caches that
--   Telemetry and Consumer fill, and the deletion of old telemetry.
-- - Start: what `init_db` of crates/server/src/main.rs puts into a database at the start of the
--   server. Mqtt/Reset, Control/TestRoutes and Telemetry/Typed are smaller parts of that crate.
-- - Prelude: the shared names, lists, maps and integers. Host: the interface to what is not in the
--   repository, which is floating-point arithmetic and the JSON values of `serde_json`; Sample
--   meets it with integers.
--
-- A map of the program is an association list, a text is a native text, and a machine integer a
-- native number with its wrap-around written out. The loops are recursions over their lists, and
-- `command_loop` counts the rounds that are left, which are the length of the range. The printing
-- of a number, by the standard library, has the fuel of twenty digits, which every u64 fits. An
-- f32 is its bit pattern and an f64 an abstract value of the host.
--
-- Not modelled: the sockets, the broker and its client, failures of the disk under the database,
-- what the SQL of the migrations means, the router, the metrics but for the gauges and counters that
-- the parts keep, and the opening of the database.
pub mod Artisan
pub mod Consumer
pub mod Control
pub mod Csv
pub mod Cupping
pub mod Dashboards
pub mod Details
pub mod Devices
pub mod History
pub mod Host
pub mod Modbus
pub mod Models
pub mod Mqtt
pub mod Poller
pub mod Prelude
pub mod Profiles
pub mod RegisterMaps
pub mod Sample
pub mod Sessions
pub mod Settings
pub mod Start
pub mod Tables
pub mod Telemetry
pub mod Topics
