-- ===== src/Lib.antt =====
-- A model of STEP, the secure telemetry pipeline: measurements with a compact header, the filters
-- that select them, and the processor manager that runs the processor nodes whose filters match.
--
-- The parts, and the code that each is about (paths from the repository's root):
-- - Measurement: the header of include/step/measurement/measurement.h with the three words that are
--   unions with its fields, and the masks. Children: Ctype, Si, Types and FieldValues have the
--   enumerations of unit.h, base.h, ext_*.h and measurement.h; Size has the functions of
--   src/measurement.c (step_mes_sz_payload, step_mes_validate and the static helpers); Float has the
--   binary floating point that they use, as an integer over a power of two, rounded to nearest.
--   Words, Codes, Distinct, Named, Base64, Payload and Payload/Named have the proofs.
-- - Filter: step_filt_evaluate of src/filter.c and include/step/filter.h. Filter/Meaning reads a
--   filter chain as a logical formula, Filter/Chain is about the loop.
-- - Cache: src/cache.c, the matches that are remembered for a filter word and a handle. Cache/Map reads
--   the array as a map, Cache/Lru and Cache/Insert have what an insertion does, Cache/Valid the
--   invariant, Cache/Counts the statistics.
-- - SamplePool: src/sample_pool.c, with the account of the bytes in SamplePool/Account and the runs of
--   allocations and releases in SamplePool/Ledger.
-- - Node: the handlers and the chains of include/step/node.h.
-- - ProcMgr: src/proc_mgr.c. The file has the state and the operations on one record (enable, disable,
--   node_get, subscribe, put, clear), ProcMgr/Register has step_pm_register, ProcMgr/Process has
--   step_pm_process and step_pm_poll_handler. Order, Registry, Update, Access, Subscribe, Submit, Visit,
--   Caching, Total and Release have the proofs. In ProcMgr/Trace every handler is wrapped to record
--   its calls; Calls, Loop, Visits and Runs follow the records through step_pm_process. ProcMgr/Timed
--   is step_pm_process with CONFIG_STEP_INSTRUMENTATION, and step_pm_list with the lines that it
--   prints as a result; Counting, Totals and Listing have the proofs.
--   ProcMgr/Frame has what the handlers, the subscribers and the filters need to keep of the memory
--   for a call of step_pm_process to keep it; Frame/Loop has the proof.
-- - Pipeline: src/proc_mgr.c and src/sample_pool.c together with the work queue, a parameter. Its steps
--   are those of the application (step_sp_alloc and step_pm_put) and of the work queue
--   (step_pm_poll_handler). Infos and Balance have the invariant, Balance/Runs and Balance/Drain what
--   it leads to; Mutex and Mutex/Stuck follow the mutex of the sample pool.
-- - Instrumentation: the count of the cycles in the macro STEP_INSTR_STOP of
--   include/step/instrumentation.h; both macros are in Samples/Throughput.
-- - Platform: what the code takes from Zephyr, as parameters: the memory of the measurements, the heaps,
--   the clock and the work queue (the record Platform) and the linked lists with their documented
--   effects (the records Slist and SlistTail).
-- - Samples: seven applications of samples/. Samples/Shell has the nodes of samples/shell/src/nodes.c,
--   with the driver (driver.c) and the commands (main.c) in Shell/Driver; Select, Run and Publish have
--   the proofs. Samples/Foc has foc_svm.c of samples/foc_controller/src, Foc/Driver the encoder and the
--   duty cycles of foc_driver.c, Foc/Nodes the chain of foc_nodes.c, Foc/Thread the measurement thread
--   with main.c; Svm, Sectors, Encoder and Thread/Outcome have the proofs. Samples/Subscription has
--   main.c of samples/simple_subscription/src, with the nodes and the driver of Samples/Shell, and
--   Outcome its proofs. Samples/Robot has kinematic_node.c of
--   samples/mobile_robot_kinematic_server/src, and Robot/Mecanum its proofs; Robot/Commands has the
--   commands of main.c, and Commands/Outcome what they lead to. Robot/RemoteCore has the second core,
--   remote/src/kinematic_node.c and remote/src/main.c of the same sample, and RemoteCore/Returned what
--   it makes of a payload of the first. Samples/Throughput has samples/throughput/src/main.c, and Rounds
--   and Report its proofs. Samples/Imu has imu_data_producer.c of samples/fusion_imu/src, which
--   samples/ros2_to_step_bridge/src has too, and Imu/Calibrated its proofs. Imu/Fusion has main.c and
--   fusion_nodes.c of samples/fusion_imu/src, Imu/Bridge main.c and sensor_node.c of
--   samples/ros2_to_step_bridge/src; Fusion/Shared and Bridge/Copied have the proofs. The type float and
--   its operations are a parameter (Samples/Float), and so are the sensors of the kernel, the library
--   zscilib, the RPMsg service and the client of micro-ROS.
-- - Common: shared names, lists as C arrays, signed integers, bits. Tests: runs on small inputs.
--
-- How they interact: step_pm_put submits a measurement to the work queue, from which
-- step_pm_poll_handler calls step_pm_process. This visits the records of the registry in the order of
-- the list, asks the cache, else the evaluate handler of the node or the filter engine on the filter
-- word, and the matched handler; it caches the decision and, on a match, runs the start, exec and stop
-- handlers of the nodes of the chain and the subscribers. At the end the sample pool takes the
-- measurement back if it came from there.
--
-- State is passed on explicitly. The static variables of each source file are a record; the memory
-- that handlers can reach is a type W, over which the handlers are arbitrary functions. A mutex is
-- the number of times it is held. That of the sample pool is taken by the thread of the application
-- (step_sp_alloc), which can take it again while it holds it, and by the thread of the work queue
-- (step_sp_free), which waits for good while the application holds it: the result is then none. An
-- operation that can run into undefined behaviour (a call or a read through NULL, an access outside
-- an array) returns none for it too. Unsigned integers are natural numbers with the wrap-around
-- written out where the code can reach it; the payload size is computed in 32 bits. Loops are
-- structural: over the array or the list, and over the count of filters and the exponent in
-- step_filt_evaluate and step_mes_sz_pow2, so none needs fuel. The wait of do_init of the mobile
-- robot, which ends when the RPMsg service has bound the endpoint, is given by the memory in which it
-- ends. The payload that step_sp_alloc zeroes is not in the block that was allocated, so the steps of
-- Pipeline are those in which it meets no measurement of the queue.
--
-- Not modelled: the functions that print, but for step_pm_list; what other threads do while
-- step_pm_process has the mutex released, since a step of the pipeline is a whole call; the lines, the
-- commands and the callbacks of the applications that only print. The nodes and the driver of
-- samples/simple_subscription/src are those of samples/shell/src but for the lines that they log.
-- Handlers reach the registry only through `config_of` and `registered`, what step_pm_node_get finds. A
-- time is a natural number, the value of k_uptime_get.
pub mod Common
pub mod Measurement
pub mod Filter
pub mod Cache
pub mod Platform
pub mod Node
pub mod Instrumentation
pub mod SamplePool
pub mod ProcMgr
pub mod Pipeline
pub mod Samples
mod Tests
