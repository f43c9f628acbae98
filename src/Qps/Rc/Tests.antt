-- ===== src/Qps/Rc/Tests.antt =====
-- A queue pair whose marks are about to wrap: core/qps/rc.hh.
use rlibv.Base.{◌≡◌, none, some, true, arith}
use rlibv.Qps.Progress.{pending_reqs}
use rlibv.Qps.Rc.{Rc, completed, poll_rc_comp}
use rlibv.Qps.Rc.Watermark.{behind, completion, pending_reqs-poll_rc_comp}

abbrev wrapping : Rc
wrapping = record {
  local_mr = none;
  remote_mr = none;
  ready = true;
  progress = record { high_watermark = 65535; low_watermark = 65530 };
  out_signaled = 1;
}

pending_reqs-poll_rc_comp_example :
    ((poll_rc_comp (behind wrapping 73 4) (completed (completion wrapping 73))).0
      ≡ some (73, completion wrapping 73))
    × (pending_reqs
          (poll_rc_comp (behind wrapping 73 4) (completed (completion wrapping 73))).1.progress
        ≡ 4)
pending_reqs-poll_rc_comp_example =
    pending_reqs-poll_rc_comp wrapping 73 4 (omega arith) (omega arith)
