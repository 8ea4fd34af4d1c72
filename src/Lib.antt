-- ===== src/Lib.antt =====
-- The parts of this repository, which share the telemetry frame, the state machine and the filters:
-- the edge IPC daemon (include/, src/), the framed telemetry server with its client
-- (async_telemetry_server/), the gRPC node and coordinator (secure_distributed_node/), a simulated
-- machine behind OPC UA (opcua_edge_server/), and, by itself, the solver of a power converter as a
-- reference and as an FPGA kernel (fpga_power_electronics_hil/).
--
-- Prelude: names of the libraries and lemmas on tests, lists and bits that the other modules share,
-- and Stoi, std::stoi with the decimal numerals.
--
-- Protocol models async_telemetry_server/src/FrameProtocol.cpp and include/SensorFrame.h: Crc is
-- crc16, Frame is Frame::serialize and Frame::deserialize, Sensor is SensorFrame::serialize with
-- the parsing of its 20 bytes, and Sensor/Univalent takes the two as one path between types. A byte
-- is a number below 256; casts to an unsigned type of w bits are written out as % 2 ^ w. A write or
-- a copy past the end of a buffer is a result of its own.
--
-- Server models async_telemetry_server/src: World has the state of a session (the bytes that the
-- peer will send, and the events: frames sent, rows stored and logged, a report to std::cerr) and
-- the outcomes, exceptions among them; Wire has TcpServer::read_frame and write_frame, Session has
-- TcpServer::handle_session with its catch clauses, Tls has TlsServer::handle_tls_session with its
-- own copies of these, Jwt has JwtValidator::validate, and Pool has DbPool with the inserts of
-- TelemetryRepository. The JWT library, the database, failing writes and a peer whose address
-- cannot be read are parameters; a read fails at the end of the input only, and an insert that
-- fails does so after a finite time. A session takes as its fuel the length of the input: each
-- round of its loop reads a whole header. Client has run_client of src/TelemetryClient.cpp, with
-- the number of its rounds, 60 in the source, as an argument; Client/Dialogue lets it talk to a
-- session, and shows that neither waits for the other for ever. Listen has the accept loops, and
-- Main the configuration of src/main.cpp and the main function of the client; an environment and
-- arguments are texts, as lists of character codes.
--
-- Daemon models include/ and src/: Manager has StateManager, one step for each atomic operation of
-- each thread, and Manager/Races says when halt and shutdown race; Receiver has TelemetryReceiver,
-- Receiver/Calls whole calls of it and Receiver/Threads one producer and one consumer, interleaved;
-- Filter, Detector and Processor have MovingAverageFilter, ThresholdDetector and DataProcessor;
-- FileSource and Simulated have the two sources, and Bus the life of the connection of DaemonBus
-- and its methods; Loop has src/main.cpp with the signals of DaemonBus, as a sequence of whole
-- calls of the main thread, the producer and the signal handler: the methods of the bus are not
-- interleaved with these. The arithmetic of double is the record Real, without laws: an average is
-- the running sum that the filter keeps, with its rounding. Only a lemma, on when this is the sum
-- of the window, takes the laws IsExact, which doubles have where every intermediate sum is exact.
-- The interleavings are those of a sequentially consistent memory.
--
-- Node models secure_distributed_node/src: Stream has the queue of snapshots of TelemetryNode,
-- Producer the rounds of TelemetryNode::ProducerLoop and GetNodeStatus, Service has
-- StreamTelemetry, and Life has Start, Stop and the destructor as calls that come one after
-- another; Coordinator has the polls and queries of TelemetryCoordinator. Credentials is
-- TlsCredentials.cpp, Main is main_node.cpp, and Coordinator/Main and Coordinator/Health are
-- main_coordinator.cpp. A main function gives how it ends; the files, and the port that gRPC binds,
-- are parameters. The inner loop of a round has 1024 for its fuel, one more than the ring holds.
--
-- Hil models fpga_power_electronics_hil/: Lu is vsc_solver/include/LuSolver.h, Norton and Network
-- are NortonUpdate.cpp and VscNetwork.cpp of vsc_solver/src, and Kernel is hls_solver/, whose
-- solver_top Kernel/Steps sets against VscNetwork::step; the kernel's literals for the grid are the
-- record Literals. The arithmetic is the record Num; a theorem that needs a field without rounding
-- takes the laws IsField.
--
-- Opcua models opcua_edge_server/src: Sim is telemetry_sim.c over a parameter for the arithmetic,
-- Source has the read callbacks of data_source.c and data_source_opt.c over a store with the
-- scalars of the pool and the copies on the heap, and Update is the thread of update_loop.c. Model
-- (information_model.c) and Main (server_main.c) give the calls of open62541 in their order, where
-- the statuses that the library answers are a parameter. What the library does with these calls is
-- left out.
--
-- Examples has the theorems at concrete inputs, and tests.
--
-- Not modelled: the D-Bus worker thread's waits, and its methods between the steps of the main
-- loop, the threads that run an io_context, the set-up of the TLS contexts and channels, the
-- resolving of a host, log output, and all Python code. Time stamps that are only handed on are
-- left out.
pub mod Prelude
pub mod Protocol
pub mod Daemon
pub mod Server
pub mod Node
pub mod Hil
pub mod Opcua
mod Examples
