-- ===== src/Lib.antt =====
-- Météodata collects the observations of weather stations and stores them. Its core is the
-- connection to the Vantage Pro 2 stations, each driven by a state machine over a socket and timers;
-- what a connection learns is told to the rest of the server by events and by jobs. Other stations
-- are reached by periodic downloads, or send payloads through a LoRa network or a MQTT broker.
--
-- The parts, and the files that model them:
-- * Davis.Connector models `VantagePro2Connector` (src/davis/vantagepro2_connector.h and .cpp).
--   `State` has the object with the operation in progress on its socket and the wait in progress on
--   its timer, `Actions` the functions that start them, and `Identify`, `Download` and `SetTime` one
--   handler for each case of `handleEvent`, named after the case. `Machine` puts them together:
--   `dispatch` is the switch, `complete_io` the handlers of the reads and writes, `expire_timer`
--   `checkDeadline` and the retry of `flushSocketAndRetry`, and `step` one event. The proofs are in
--   `Invariant`, `Reach`, `Timeouts`, `Pages` and `Faults`.
-- * Davis.Archive models the pages of archive (src/davis/vantagepro2_archive_page.cpp and
--   src/davis/vantagepro2_archive_message.h), Davis.Params the parameters of the requests, and Davis.Crc
--   the CRC of every message (src/davis/vantagepro2_message.cpp). The connector calls the three.
-- * Time models the time settings of a station (src/time_offseter.h and .cpp), which the pages and the
--   parameters use.
-- * Event models the event manager (src/event/event_manager.cpp), through which the connector announces
--   new data.
-- * Jobs models `AsyncJobPublisher` (src/async_job_publisher.cpp), which the connector asks for jobs over
--   the past days that it has downloaded.
-- * Scheduler models `AbstractDownloadScheduler` (src/abstract_download_scheduler.cpp), from which
--   the clients of web interfaces derive.
-- * ConnectorGroup models the groups of connectors (src/connector_group.cpp), started, stopped and
--   reloaded together.
-- * HexParser models src/hex_parser.h, and Liveobjects the check of a payload
--   (src/liveobjects/liveobjects_message.cpp) and the messages of LoRa sensors, which are parsed with it:
--   `Thpllora` a weather station (src/dragino/thpllora_message.cpp), `BaraniRainGauge` and `Cpl01` two rain
--   gauges (src/barani/barani_rain_gauge_message.cpp, src/dragino/cpl01_pluviometer_message.cpp),
--   `BaraniThermohygro` the station MeteoHelix (src/barani/barani_thermohygro_message.cpp), `Oy1110`
--   a thermohygrometer (src/talkpool/oy1110_thermohygrometer_message.cpp), and `BaraniAnemometer2026` the
--   anemometer MeteoWind (src/barani/barani_anemometer_2026_message.cpp), whose speeds, directions and
--   battery `Wind` has.
-- * Synop models the decoder of SYNOP messages (src/synop/synop_decoder/parser.cpp). `Message` is what it
--   fills; `Groups` has `parseRain` and the tables of codes, `Section1`, `Section3` (with `Sunshine` and
--   `Gusts`, some of its groups) and `Decoder` the functions of the sections and `parse`. The format itself
--   is described apart from the code, by the items of sections 1 (`Items`) and 3 (`Extras`) with their
--   groups and their meanings; `Digits`, `Report`, `Mandatory`, `Fields`, `Supplement` and `Whole` prove what
--   is decoded, `Termination` and `Total` that the loops have enough fuel, and `Faults` where it reads too far.
-- * Mqtt models the base of the subscriptions to MQTT brokers (src/mqtt/mqtt_subscriber.cpp and its header):
--   its connections, retries and reloads, as inputs of a step, and its stations by topics. `Details` is about
--   the order of the details, `Topics` and `Stations` about the two maps, `Retries`, `Stops` and `Reload`
--   about when it connects.
-- * Control models the control interface (src/control). `Connection` is the state machine of a client
--   (src/control/control_connector.cpp), as inputs of a step: `Invariant` is about the operations in progress
--   and `Commands` about the answers. `Queries` is the chain of handlers (src/control/query_handler.cpp and
--   those of connectors, exporters and the server), and `Dispatch` says where a query goes.
-- * Watchdog models the notifications to systemd (src/monitoring/watchdog.cpp), and `Notifications` how far
--   apart they are.
-- * Base has what the others share, and Tests the concrete inputs.
--
-- How the code is read:
-- * A packed structure or a buffer is the list of its bytes, the low byte of a word first; a character of
--   a payload is its code. Unsigned integers wrap where the code's do.
-- * Times are whole seconds since the epoch (any unit for the scheduler,
--   microseconds for the watchdog), and the clock does not move
--   while one event is handled.
-- * An asynchronous operation is in progress until an event completes it. One that is cancelled reports
--   so and its handler returns at once: it is dropped where it is cancelled. A timer of the connector
--   fires past its deadline only; the branch that restarts a wait woken early is modelled for the scheduler,
--   where handlers may also be queued when the timer is cancelled, and for the MQTT subscribers.
-- * The date library (`DateLib`), the answers of the database (`World`, `Lookup`, `Inserts`,
--   `station_details`), the identifiers that the MQTT library gives to packets (`subscribe`), the life of
--   the subscribers (`alive`), whether a voltage that is not initialised is other than 0 (`stray`) and a read past the end of a table (`stray_offset`) are arguments.
--   The date library is assumed to give back a civil date from its serial number, and a local time
--   that exists from its POSIX time.
-- * Loops are recursions on the list that they consume, so that no fuel is needed, but for three. The
--   loops of sections 3 and 5 of a SYNOP message have one unit of fuel for each group that follows the
--   mark of the section, and each turn takes at least one; the loop of the OY1110 takes any fuel, and is
--   none when it runs out.
-- * A call of the SYNOP decoder ends, throws, or reads past the end of a text or of the groups
--   (`Outcome`). Its `int` does not overflow, which holds for groups of at most nine digits.
--
-- Not modelled: the log, the texts of the status and of the help, the options of the socket, the bytes thrown away before
-- a retry, the conversion of measures to floating point (a point is handed to the database as it was
-- received, and a LoRa measure is kept as its integer), the result of the update of the last
-- download time, which is only logged, and the mutexes, which make each operation of the events and of
-- the jobs atomic. The timer of a job is modelled with the station that it was set for, where the
-- code keeps a reference. In the SYNOP messages the
-- amounts of rain are in tenths of millimetres and the visibilities in metres, which floating point
-- numbers hold in the code; `date::parse` is an argument. The other decoders, clients and servers are
-- left out.
mod Base
pub mod Time
pub mod Davis
pub mod Event
pub mod HexParser
pub mod Liveobjects
pub mod Jobs
pub mod Scheduler
pub mod ConnectorGroup
pub mod Control
pub mod Mqtt
pub mod Watchdog
pub mod Synop
mod Tests
