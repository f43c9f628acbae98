-- ===== src/Nic/Tests.antt =====
-- Runs of core/nic.hh and core/nicinfo.hh; an opened NIC for the tests of the queue pairs.
use rlibv.Base.{some}
use rlibv.Config.{QpConfig}
use rlibv.Verbs.Tests.{simple}
use rlibv.Nic.{RNic}

abbrev pub nic : RNic simple
nic = record {
  ctx = some 11;
  pd = some 11;
  id = record { dev_id = 0; port_id = 1 };
  addr = some (record { subnet_prefix = 1; interface_id = 2; local_id = 0 });
  lid = some 4;
}

abbrev pub config : QpConfig
config = record {
  access_flags = 14;
  max_rd_atomic = 16;
  max_dest_rd_atomic = 16;
  rq_psn = 3185;
  sq_psn = 3185;
  timeout = 20;
  max_send_size = 128;
  max_recv_size = 2048;
  qkey = 0x111111;
  dc_key = 1024;
}
