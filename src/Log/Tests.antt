-- ===== src/Log/Tests.antt =====
-- Lines of core/utils/logging.hh.
use rlibv.Base.{◌≡◌, refl, false, [], ◌∷◌, ◌++◌}
use rlibv.Base.Text.{codes}
use rlibv.IpName.{to_decimal, digits}
use rlibv.Log.{strip_basename, rdma_log, message_logger, info}

one_line : rdma_log info (codes "src/core/lib.hh") 73 4 (codes "done") ≡ record {
  out = (27 ∷ []) ++ (codes "[35m[lib.hh:73] done" ++ ((10 ∷ []) ++ ((27 ∷ []) ++ codes "[0m")));
  aborted = false;
}
unfolding rdma_log message_logger strip_basename to_decimal digits
one_line = refl
