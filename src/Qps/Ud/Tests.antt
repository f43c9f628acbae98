-- ===== src/Qps/Ud/Tests.antt =====
-- A `UD` of core/qps/ud.hh on a library where every call succeeds.
use rlibv.Base.{◌≡◌, refl, true, some}
use rlibv.Config.{max_send_sz, max_recv_sz}
use rlibv.Verbs.{qps_rts, qpt_ud}
use rlibv.Verbs.Tests.{simple, simple-Documented}
use rlibv.Nic.Tests.{nic, config}
use rlibv.Qps.Dummy.{valid}
use rlibv.Qps.Impl.{create_cq, create_qp, made, bring_qp_to_init, modified}
use rlibv.Qps.Ud.{
  Ud, new, create, after_cq, after_recv_cq, after_qp, after_init, to_ready, bring_ud_to_recv,
  bring_ud_to_send,
}
use rlibv.Qps.Ud.Created.{Ready, create-Ready}

abbrev ready : Ud simple
ready = record {
  dummy = record {
    qp = some (record { state = qps_rts; type = qpt_ud });
    cq = some 0;
    recv_cq = some 1;
    nic = nic;
  };
  my_config = config;
}

created : create simple nic config ≡ some (some ready)
unfolding create new after_cq after_recv_cq after_qp after_init to_ready bring_ud_to_recv
    bring_ud_to_send create_cq create_qp made bring_qp_to_init max_send_sz max_recv_sz valid
    modified
created = refl

create-Ready_example : (valid simple ready.dummy ≡ true) × Ready simple ready
create-Ready_example = create-Ready simple simple-Documented nic config ready created
