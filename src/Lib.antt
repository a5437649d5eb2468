-- ===== src/Lib.antt =====
-- NeuroKinetic: the safety kernel of a robot arm, and the 500 Hz loop around it.
--
-- The program is a C++ daemon that owns a segment of shared memory. A Python tier writes a command
-- there (torques, flags and a safety margin) and a heartbeat. Every 2 ms the daemon checks the
-- heartbeat, reads the command under a sequence lock, filters the torques through a control barrier
-- kernel, integrates a simulated arm, logs interventions to RocksDB, publishes telemetry to shared
-- memory and pushes a frame into a lock-free ring. A second thread drains the ring into counters that
-- a scrape reports.
--
-- The parts and their files, with paths from the repository's root:
--   Kernel       src/kernel/cbf_solver.hpp and cbf_solver.cpp. Kernel holds the structures, Kernel.Limits
--                the barrier of an obstacle and the torques near a joint limit, Kernel.Rows the matrix
--                of constraints, Kernel.Qp solve_active_set_qp, and Kernel.Filter filter_torques.
--                Kernel.Qp.Optimal, Least and Averaged are about the solver in exact arithmetic.
--   Ring         include/neurokinetic/telemetry/spsc_ring_buffer.hpp. Ring.Queue is the queue that the
--                ring promises to be; Ring.Threads has the two threads as interleaved steps, each
--                of one access to an atomic variable or to a slot.
--   Recorder     src/storage/flight_recorder.hpp, flight_recorder.cpp and read_incidents.cpp.
--                Recorder.Decimal and Recorder.Bytes are the keys and the payloads, Recorder.Log the
--                recorder and Recorder.Reader the program that prints the latest incidents.
--   Ipc          src/ipc/shm_layout.hpp. Ipc.Memory and Ipc.Layout are the segment as 384 bytes and the
--                place of every member in it. Ipc.Client is the Python client of these bytes,
--                runtime/shm_client.py.
--   Daemon       src/kernel/realtime_daemon.cpp. Daemon.Heartbeat is the watchdog, Daemon.Command the
--                read of a command, Daemon.Tick a round of the loop, Daemon.Start the state before the
--                first one. A tick composes check_heartbeat, ingest, filter_torques, integrate,
--                log_cbf_intervention, publish and try_push as main does. Daemon.Session is main itself:
--                the calls that set the segment up, a session of rounds, turns of the telemetry worker
--                and signals in any order, and the shutdown. Daemon.Torques and Daemon.Frozen are about
--                whole runs, Daemon.Session.Interventions and Daemon.Session.BlackBox about what a
--                session leaves in the database, Daemon.Session.Exports about what it has exported.
--   Telemetry    src/telemetry/telemetry_worker.cpp and src/metrics.cpp, with their headers in
--                include/neurokinetic/telemetry. Telemetry.Histogram is what the two share.
--                Telemetry.Text has the texts that they print, as bytes; Telemetry.Exposition and
--                Telemetry.Http are the two formats, with a reader of each one. Telemetry.Sockets has the
--                calls of the system around these texts, as effects, with their answers, the number of bytes
--                that send takes included, as inputs.
--   Logger       src/logger.cpp and include/neurokinetic/telemetry/logger.hpp.
--   Server       the handlers of runtime/server.py and the setpoints of runtime/vla_agent.py, as what
--                they store in the segment through a client of their own, and what the server keeps.
--   Base, Double and Vector are what the parts share: lists, words with their wrap-around, the
--   operations of floating-point numbers, and vectors as functions of the index.
--
-- double and float are types with the operations of Double, and so is every function of <cmath> that
-- the code calls. Laws of IEEE arithmetic are hypotheses of the theorems that need them (Double.Laws and
-- Double.Nan); Double.Micro, fixed-point numbers, meets the laws and runs the tests. Double.Exact has the
-- laws of an ordered ring, which rounding breaks, for the theorems on what the solver computes but for
-- its rounding; Double.Whole, whole numbers, meets them. Code that is not in the repository is a
-- parameter: Eigen's M.ldlt().solve(rhs), with no law except in those theorems, where it solves its
-- system; RocksDB with the laws of Recorder.Store, the conversions between number types, how Python's
-- struct.pack rounds a number to a float and which ones it refuses with an OverflowError, and the clocks,
-- whose readings are inputs. A word of 32 or 64 bits is a natural number with its wrap-around
-- written out.
--
-- Bounds and fuel: an arm has dof = 7 joints. A key has 20 digits, and 20 rounds find the digits of
-- every number below 2^64. The reader takes at most 50 entries. A worker's queue has 4096 slots, of
-- which one stays free, so 4096 turns of the last loop of drain_loop are enough, and 2048 turns for
-- the logger's queue. The client copies the telemetry ten times at most, as its loop does.
--
-- Each tick takes the values that it loads from shared memory as an argument, since another process
-- may write there between two loads; nothing is assumed of them. In Ipc.Layout and Ipc.Client the loads
-- come from the bytes of the segment, with no store of another process between them, except in
-- Ipc.Client.Torn. The worker takes a whole turn, one pop and what it does with the frame, between two
-- rounds of the loop; what is written between the two stores of the telemetry's sequence number is one
-- step there. Ring.Threads takes the accesses of the two sides one by one, interleaved in one order;
-- weaker orders of memory are not modelled.
--
-- In Server a request or a setpoint is handled whole before the next one, as the one thread of the
-- server does; the planner is another process, and a setpoint of its own that falls into the middle of
-- a request is not modelled.
--
-- Not modelled: the options and addresses of the sockets; the sleep at the end of a round; the lines
-- on the standard output of the daemon; and of the parts in other languages all but the client of the shared segment and the commands that the server and the
-- planner send through it: the web framework, the trajectories and the physics of the agents, which
-- other libraries compute, gateway and frontend.
pub mod Base
pub mod Ring
pub mod Double
pub mod Vector
pub mod Kernel
pub mod Recorder
pub mod Ipc
pub mod Daemon
pub mod Server
pub mod Telemetry
pub mod Logger
