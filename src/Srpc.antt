-- ===== src/Srpc.antt =====
-- core/bootstrap/srpc.hh: the RPC of the control path. `Client` is `SRpc`, `Server` is `RPCFactory`
-- and `SRpcHandler`.
pub mod Client
pub mod Server
pub mod Request
pub mod Reply
pub mod Session
pub mod Stale
pub mod EventLoop
pub mod Keeps
pub mod Undefined
pub mod Tests
