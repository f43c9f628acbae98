-- ===== src/Lib.antt =====
-- rlib, a library for RDMA: its control path, and what its queue pairs keep.
--
-- Two machines that talk over RDMA first exchange the attributes of their queue pairs and memory
-- regions over UDP. That control path is modelled here from its bytes up to its clients, and so are the
-- resources that it hands out: NICs, memory regions and queue pairs, with their construction, their
-- connection and what they keep of requests, batches and rings.
--
--   Base            lists, words, keys and text that the other modules share
--   Marshal         core/utils/marshal.hh: byte buffers, packed structs dumped and read back
--   MultiMsg        core/bootstrap/multi_msg.hh, multi_msg_iter.hh: several messages in one buffer
--   Factory         core/utils/abs_factory.hh: resources registered under names, with keys
--   Result          core/result.hh: codes with descriptions
--   Channel         core/bootstrap/channel.hh: datagrams sent and received
--   Config          core/qps/config.hh: the configuration of a queue pair
--   Proto           core/bootstrap/proto.hh: the requests and replies, and the structs in them
--   Srpc            core/bootstrap/srpc.hh: Srpc.Client is `SRpc`, Srpc.Server is `RPCFactory` and
--                   `SRpcHandler`
--   RCtrl           core/rctrl.hh: the server of the control path and its handlers
--   ConnectManager  core/lib.hh: its client
--   Qps             core/qps: Progress and Dummy (mod.hh), impl.hh (Impl), rc.hh (Rc has the requests,
--                   RcQp the queue pair), ud.hh (Ud), dc.hh (Dc), op.hh (Op), doorbell_helper.hh
--                   (Doorbell), recv_helper.hh (RecvEntries), recv_iter.hh (RecvIter); WrChain is how
--                   the device reads linked requests
--   RecvManager     core/qps/rc_recv_manager.hh: the server's part for queue pairs that receive
--   Nic             core/nic.hh, core/nicinfo.hh: opened devices and the list of their ports
--   Rmem            core/rmem: memory and its registration
--   IpName          core/utils/ipname.hh: addresses and the cache of host names
--   Verbs           what the repository calls of the verbs library, and what is documented of it
--   System          RCtrl on the repository's own queue pairs, regions and NICs
--   Release         the destructors of core/qps, core/nic.hh and core/rmem
--   Log             core/utils/logging.hh: the log macros and the logger
--   Bench           benchs: what the clients share (BenchOp, Reporter, FastRandom of tests/random.hh), their
--                   connection (Setup), the workers of the five clients, and the server (BenchServer)
--
-- A method that changes an object takes its state and returns the new one. A C++ exception is `none`
-- up to the `catch` that handles it; an aborted process and undefined behaviour have constructors of
-- their own, or are the outermost `none`. An unsigned integer is a natural number, and where the
-- code's arithmetic wraps the remainder is written out.
--
-- A client's call is a datagram that leaves and a list of events that come: datagrams, timeouts and
-- failures of the socket, in any order. The server's loop takes such a list as well. So orderings,
-- losses, duplicates and late replies are lists. Replies that cross are the caller's choice of events.
--
-- Loops are recursion on what they consume (events, attempts, entries). Four take fuel: `generate_key`,
-- which draws until a number is not 0, the walk of an iterator, the chain of requests, and the last loop
-- of fly_bench, whose fuel is the number of waits that it may make. For the first three enough fuel is
-- part of the statements below.
--
-- Parameters stand for what the repository's code calls but does not hold: the bytes that the network
-- brings, the numbers that `rand` returns, the operating system's sockets and host names, and the verbs
-- library, whose documented behaviour is the hypothesis `Documented` where a statement needs it. The
-- control path uses queue pairs, memory regions and NICs through the interface `Devices` of RCtrl, which
-- System fills. The turns of the daemon's thread are a list. Locks are held for the whole of a method,
-- so methods of several threads are one after the other.
--
-- Pointers between work requests are indices into their array. The device reads a chain of requests by
-- following them, with as much fuel as the array has places, which is enough for a chain that ends.
-- The life of a queue pair is a step relation: Qps.RcQp.Reachable.
--
-- A benchmark's worker makes as many rounds as an argument says, since `running` is cleared by another thread. Where
-- a destructor runs, and for whom, is not modelled: it is a function of the object to what it gives back.
--
-- The string of a MultiMsg is taken not to move while its header is in use, as it does not
-- where appends stay within the bytes that were reserved. `SRpc::call` reserves 8 bytes less than it appends; the
-- header is not used behind its last append. A read of a message outside its buffer is undefined at the server
-- (`escapes`); at a client it is cut at the buffer's end. A name with no 0 in its 64 bytes is cut at 64, where
-- the source reads on.
--
-- Not modelled: clocks but for the lease of a host name; utils/util.hpp and utils/marshal.hpp, which
-- nothing includes; of the benchmarks dc_server, main of the clients
-- and the threads; examples and tests.
pub mod Base
pub mod Marshal
pub mod MultiMsg
pub mod Factory
pub mod Result
pub mod Channel
pub mod Config
pub mod Proto
pub mod Srpc
pub mod Verbs
pub mod Nic
pub mod IpName
pub mod Log
pub mod Rmem
pub mod RCtrl
pub mod ConnectManager
pub mod Qps
pub mod RecvManager
pub mod Release
pub mod Bench
pub mod System
