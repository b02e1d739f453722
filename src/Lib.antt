-- ===== src/Lib.antt =====
-- The core of the geopilot backend (backend/src/geopilot): the domain model, the asset registry,
-- the ingestion of raw values and the decoding of registers, the historians, the acquisition from
-- registers and 1-Wire probes with its runner and runtime, the configuration of an installation
-- and its provenance, the judgement of which sensors report, the Modbus RTU transports, and the
-- guard of equipment control.
--
-- How the parts interact: readings come in through a transport (Modbus) that talks to a serial
-- port under the advisory lock of the port; their words are decoded (Decoder), become
-- measurements of the domain model (Ingestion, Domain), whose sensors are known to a registry
-- (Registry), and are kept by a historian (Historian), in memory or in SQLite. A configuration
-- file (Configuration) says what to read and operate. The runner (Acquisition.Runner) executes
-- the requests of a plan, and the runtime (Runtime) repeats it. Commands go the other way: the
-- control service (Control) checks a command against its policy and the rate limit of its target,
-- journals the intent, has the write transport operate the coil, and journals the outcome.
--
-- - Prelude and its children: numbers, lists, strings as lists of code points, dicts in insertion
--   order, the stable sort, XOR on words, and Python's exceptions as values (Results) and with a
--   state (Exec): what a method wrote stays written when it raises.
-- - Datetime: aware and naive datetimes, by their instant in microseconds and their offset in
--   whole seconds.
-- - Domain, Domain.Assets, Domain.Observation: domain.py. A constructor is a function from the
--   fields of the call to the object or the error of the first check that fails. Values have a
--   type of their own, a parameter.
-- - Registry: registry.py. The state is the four dicts, the operations are the methods of
--   InMemoryAssetRegistry.
-- - Historian: historian.py. The state is the list and the index by id; append,
--   latest_for_sensor, query_sensor and query_system are the methods of
--   InMemoryMeasurementHistorian.
-- - Historian.Sqlite: sqlite_historian.py. The table is the list of its rows in the order of seq,
--   a query keeps and sorts rows and reads them back through the constructor of a measurement;
--   what a NUMERIC column gives back for a value is a parameter.
-- - Ingestion: ingestion.py. IngestionService.ingest on any sink and registry, with the
--   normalizer's functions by name; the clock's reading is an argument.
-- - Acquisition: acquisition.py. The pipeline as a function on the sink's state, over the
--   service's ingest; the messages of failures, and with them the test that they are not blank,
--   are left out.
-- - Acquisition.Simulator: modbus_simulator.py, the register clients and the service; the record
--   of what a client has read is a part of the state, which a parameter (note) extends.
--   Acquisition.Runner: acquisition_runner.py; Acquisition.Runner.Polling: simulated_polling.py.
-- - OneWire: onewire.py. The sysfs tree is a function of the state, and what Unicode has as
--   decimal digits is a parameter.
-- - Configuration, Configuration.Sections, Configuration.Parse and Configuration.Parse.Reads:
--   configuration.py, on a TOML document as a table of values. Configuration.Assembly: what
--   runtime.py builds of a configuration.
-- - Runtime.Session and Runtime.Executors: _build_plan of runtime.py and the executors that it
--   gives its requests, over the factories of transports and buses. Runtime.Planned.Stored: a
--   session, whose ingestion appends to the rows of its SQLite historian. Runtime: run_cycle,
--   run_cycles and summarize. The callbacks are functions on the state; an interval is a whole
--   number of seconds, of which only the sign is looked at.
-- - Connectivity: connectivity.py, on what its two queries return. A time is its microseconds
--   since the epoch.
-- - Provenance: provenance.py, provenance_from and compare.
-- - Decoder: register_decoder.py. The float of two words is a parameter.
-- - Modbus.Boundary and Modbus.Fake: modbus_transport.py. Modbus.Write: modbus_write.py.
--   Modbus.Crc and Modbus.Serial: modbus_pyserial_transport.py, with _exchange of both transports
--   in the steps transact, read_payload and data_response. Modbus.SerialWrite:
--   modbus_pyserial_write.py. Modbus.Lock: the use that the transports make of the lock of a
--   port.
-- - Modbus.PortLock: PortLock.hold of port_lock.py on fuel, which counts the attempts at the
--   lock.
-- - Control.Sqlite: sqlite_journal.py. The table is the list of its rows in the order of seq, and
--   each statement what it does to them.
-- - Control.Policy, Control.Record, Control.Guard and Control.Memory: control.py. Control.Guard
--   has ControlService as functions on a state: what the journal keeps, the bus behind the
--   transport, the cache of the times, and the number of readings of the clock; execute_all is
--   what the service's gate makes of concurrent calls, one command after another.
--
-- Parameters: pyserial's port (SerialPort) with a state of its own, about which nothing is
-- assumed; the lock of the port; the journal, the transport and the clock of the control service,
-- of which the theorems on the rate limit assume nothing; the operations and tests on Python's
-- numbers (Numbers), the float of an integer, which may be too large, and a float of seconds as
-- microseconds, in a configuration; and the float of two words.
--
-- Bounds: bytes are numbers below 256 and the checksum one below 65536; the loop of the checksum
-- runs eight times for a byte, as in the source. The wait for the port and the loop of run_cycles
-- run on fuel; Modbus.PortLock.Waiting and Runtime.Cycles show how much is enough. The minimum
-- interval of a target is a whole number of microseconds, to which timedelta rounds the seconds
-- of the source.
--
-- Not modelled: the texts of messages and the JSON of to_dict; type tests that Python makes
-- because it is not typed; opening a port or a database; reading a configuration file, opening
-- and closing a session, reports, the dashboard and the control server, which are other parts of
-- the repository; tools, examples, firmware and scripts.
pub mod Prelude
pub mod Datetime
pub mod Domain
pub mod Registry
pub mod Historian
pub mod Ingestion
pub mod Decoder
pub mod Acquisition
pub mod Modbus
pub mod OneWire
pub mod Control
pub mod Configuration
pub mod Runtime
pub mod Connectivity
pub mod Provenance
