-- ===== src/Qps.antt =====
-- core/qps: what the queue pairs keep beside the device.
pub mod Progress
pub mod WrChain
pub mod Doorbell
pub mod RecvEntries
pub mod Rc
pub mod Op
pub mod RecvIter
pub mod Dummy
pub mod Impl
pub mod RcQp
pub mod Ud
pub mod Dc
