-- ===== src/Lib.antt =====
-- perfrunner, a performance test harness for Couchbase Server: its workload generator and the
-- helpers around it.
--
-- The workload generator (spring/) starts worker processes that share counters. A worker asks its
-- key generators (spring/docgen.py) for keys, formats them, and sends batches of commands
-- (spring/wgen.py); the latencies go into a reservoir (spring/reservoir.py). In front of a test the
-- configuration (perfrunner/settings.py) is read, and the cluster is set up from it
-- (perfrunner/utils/cluster.py, perfrunner/helpers/cluster.py); between the phases of a test the
-- monitor (perfrunner/helpers/monitor.py) polls the cluster.
--
-- Prelude, Text: Python's integers, `range`, slices, exceptions as values, and number formatting;
--   Text/Words has `split`, `in` and `int()` of texts.
-- Keys: `decimal_fmtr`, `hex_fmtr`, `hash_fmtr` and `Key` of spring/docgen.py; `spooky.hash128` is a
--   parameter.
-- Generators: the key generators of spring/docgen.py. A draw of `random` is a number from which
--   `randrange` makes its value, and a sample of numpy is an argument. Floats that only scale a
--   count are exact ratios.
-- Documents: the document bodies of spring/docgen.py and spring/fastdocgen.c. A dictionary display is
--   a list of entries, evaluated in order; `time.gmtime` and the word lists of spring/dictionary.py
--   are fields of `Env` and `Lists`, and each call of `random` has a raw draw of its own.
--   Documents/Samples has the documents that are drawn from lists, Documents/Transfer and
--   Documents/Pieces those for import and export.
-- Reservoir: `Reservoir` of spring/reservoir.py; the random fraction is a ratio below one.
-- Worker: `KVWorker` of spring/wgen.py: a batch (`gen_cmd_sequence`), the counters that it moves
--   under the lock, and the run loop. Worker/Interleaving takes the turns at the lock in any order,
--   and Worker/Progress the tests and additions of the run loops, as explicit sequences of steps.
-- Worker/Variants: the sub-document, XATTR and once-through workers, and `WorkerFactory`.
-- Worker/Async: `AsyncKVWorker`, whose connections the answers of the server drive, as a step relation.
-- Worker/Query: the batches of `N1QLWorker` and `ViewWorker`, as the keys that they touch.
-- Worker/Sources, Worker/Workload: `init_docs`, and `WorkloadGen` as the list of its actions.
-- PathoGen: the ring of workers of perfrunner/workloads/pathoGen.py, as a step relation on the queues,
--   whose capacity is a parameter.
-- KeyFragger: the work on the keys of a batch in perfrunner/workloads/keyFragger.py; a bucket is the
--   test of whether it holds a key.
-- WorkerManager: the managers of perfrunner/helpers/worker.py, which hand tasks to workers in turns.
-- PerfTest: the phases, the checks and the exit of `PerfTest` of perfrunner/tests/__init__.py.
-- Config: `Config`, `ClusterSpec`, `TestConfig` and `TargetIterator` of perfrunner/settings.py: a parsed
--   file is the list of its sections with the values as they are read, Config/Overrides has
--   `override`, Config/Hosts the hosts of a specification, Config/Options the classes of settings,
--   Config/Targets the buckets and targets.
-- Cluster: `ClusterManager` of perfrunner/helpers/cluster.py and `main` of perfrunner/utils/cluster.py.
--   A method is the list of its calls of the REST, remote, memcached and monitoring helpers; what the
--   servers answer is an argument. Cluster/Steps says what a call does to the nodes, as a step relation.
-- Monitor: the polling loops of perfrunner/helpers/monitor.py. Answers and clock are functions of the
--   round or the poll. Monitor/Queues, Monitor/Replication and Monitor/Xdcr have the loops that a clock
--   bounds, Monitor/Indexing those that only the answers end.
-- Retry: the decorator `retry` of perfrunner/helpers/misc.py.
-- Rebalance: the nodes and the REST calls of perfrunner/tests/rebalance.py; Rebalance/Failover has the
--   nodes that fail, and the phases of the tests.
-- Tests: runs at concrete inputs.
--
-- Loops are structural recursions. Fuel stands in Text, where the number itself bounds the number of
-- its digits; in Monitor/Queues, where 21,602 and 10,802 rounds of two seconds or more exceed the
-- time limits of 12 and of 6 hours; and in Monitor/Replication, Monitor/Xdcr and Monitor/Indexing, as
-- the number of polls: the program itself polls without end where the cluster never gets ready.
--
-- The shared counters of the workers are unsigned and 64 bits wide; they are natural numbers here, so
-- that all that is said of them is for runs of fewer than 2^64 documents and operations.
--
-- Not modelled: the Couchbase SDK, HTTP and shell commands, clocks and sleeping, logging, the
-- rounding of floats, references of a configuration file to other options, the settings of single
-- phases of a test, the ring of workers of KeyFragger, which repeats that of PathoGen, and the other
-- test scripts, which call the helpers in sequence.
pub mod Prelude
pub mod Text
pub mod Keys
pub mod Generators
pub mod Documents
pub mod Reservoir
pub mod Worker
pub mod Config
pub mod PathoGen
pub mod PerfTest
pub mod KeyFragger
pub mod WorkerManager
pub mod Cluster
pub mod Monitor
pub mod Rebalance
pub mod Retry
mod Tests
