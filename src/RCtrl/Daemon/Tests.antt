-- ===== src/RCtrl/Daemon/Tests.antt =====
-- The daemon of core/rctrl.hh, which serves two datagrams in two turns and is stopped.
