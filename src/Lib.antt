-- ===== src/Lib.antt =====
-- replicated-splinterdb: a key-value store that is replicated with the Raft library NuRaft over
-- SplinterDB, and the client that talks to its servers.
--
-- The parts and how they interact. A client (src/client/client.cpp) connects to the servers of a
-- cluster, finds the leader, sends it puts, updates and deletes, and sends each get to the server
-- that its read policy picks (include/replicated-splinterdb/client/read_policy.h). A server
-- (src/server/server.cpp) hands a mutation to its replica (src/server/replica.cpp), which serializes
-- it (src/server/splinterdb_operation.cpp) and appends it to the Raft log. The log is kept in memory
-- (src/server/in_memory_log_store.cpp). Once the cluster agrees, the Raft library makes each replica
-- commit the entry: the state machine (src/server/splinterdb_state_machine.cpp) reads the operation
-- back and makes the call of SplinterDB, whose code travels back to the client. The programs are
-- apps/spl_server.cpp, which makes a server from its flags and lets it join a cluster, and
-- apps/spl_client.cpp, a command line.
--
-- The files.
--   Base: numbers of fixed width, lists, maps in ascending order, and how calls end (`Result`, and
--     `Exec` for methods that change an object and may throw).
--   Nuraft, SplinterDb: what the program uses of the two libraries, whose sources are git submodules,
--     as records of operations and of the documented behaviour that the proofs rely on. Their child
--     Sample gives plain values of these records, on which the theorems are tried.
--   LogStore: src/server/in_memory_log_store.h and .cpp, with the children Pack (pack and apply_pack)
--     and Disk (the emulated disk; `disk_emul_round` is one turn of the loop of its thread). View has
--     the abstract log, a start index and a list of entries, that a store stands for. Writeback has the
--     runs in which calls of the store and rounds of the disk thread alternate, and Notes the queue of
--     entries that are being written.
--   Operation: include/replicated-splinterdb/server/splinterdb_operation.h,
--     src/server/splinterdb_operation.cpp.
--   StateMachine: src/server/splinterdb_state_machine.h and .cpp, src/server/splinterdb_snapshot.h.
--     The abstract store is a function from keys to values.
--   StateMgr: src/server/in_memory_state_mgr.hxx.
--   Replica: include/replicated-splinterdb/server/replica_config.h, replica.h, src/server/replica.cpp.
--   Server: src/server/server.cpp, and in Lifecycle its constructor, run and destructor.
--   Rpc: include/replicated-splinterdb/common/types.h.
--   Endpoint: host:port, as replica.cpp writes it and client.cpp and apps/spl_server.cpp read it.
--   ReadPolicy: include/replicated-splinterdb/client/read_policy.h, src/client/read_policy.cpp.
--   Client: include/replicated-splinterdb/client/client.h, src/client/client.cpp; the child Connect
--     has the constructor and the reads, Connections the map of connections that it makes, and Policy
--     relates this map and the read policy over the life of a client.
--   Cluster: the server's handlers, the agreed log and the state machines of all servers, put together
--     as a step relation. A step is a call that the Raft library makes: it agrees on the entry of a
--     request, or it has one server commit the next entry; servers commit in their own time, and one can
--     begin anew with nothing committed. That the servers see one log is what the library promises and
--     is the form of the model. Clients, Mutations, Requests and PutThenGet put a client on top, with
--     rpclib carrying its calls.
--   Node: one server, its log store and its state machine, as the Raft library drives them together: it
--     changes the log store, overwrites no committed entry, drops none that is not committed, and has
--     the state machine commit the entry that `entry_at` gives behind the last committed one. Kept, CatchUp,
--     InCluster and Reads are about what it keeps, how another server takes over its entries with `pack`
--     and `apply_pack`, how its runs are runs of a server of the cluster, and what it then has in its log
--     store and answers. An entry that went through `pack` and `apply_pack` is `carried`: of the wire form
--     of an entry it is only relied upon that it keeps the term, the value type and the payload, and not
--     that it keeps the timestamp or the CRC.
--   Cli: apps/spl_client.cpp and apps/spl_server.cpp; Session has the main function of the first, Launch
--     that of the second.
-- Functions have the names of the source; a constructor is `new_...`, and the handlers that the server
-- binds are `handle_...`. Fields lose the trailing underscore.
--
-- Conventions. Unsigned words wrap at 2 ^ 64 or 2 ^ 32 where the source computes with them. A loop is
-- recursion on the number of its turns or on the list that it runs over, so no theorem leaves open
-- whether a call returns; only `digits`, which writes a number, runs on fuel, one more than the number,
-- which has no more digits than that. The time of day is an argument. An operation of the log
-- store that holds its lock is one step. `log_entries` and `log_entries_ext` take the lock for each
-- entry: LogStore/Threads has them with a store for each entry, and LogStore/Threads/Atomic relates them
-- to one step.
--
-- Not modelled: the bodies of the libraries (NuRaft, SplinterDB, rpclib, msgpack, gflags), messages
-- on the terminal and in log files, src/server/logger.* and src/server/backtrace.h and
-- src/client/MurmurHash3.*, which are copies of other projects, the clock, the timer (which counts
-- in floating point and is read nowhere), how flags and lines are read, and the example
-- apps/splinterdb.cpp. Exceptions carry the constant part of their message.
pub mod Base
pub mod Node
pub mod Nuraft
pub mod LogStore
pub mod Operation
pub mod Endpoint
pub mod ReadPolicy
pub mod SplinterDb
pub mod StateMachine
pub mod Rpc
pub mod Client
pub mod StateMgr
pub mod Replica
pub mod Server
pub mod Cli
pub mod Cluster
