-- ===== src/Qps/Dc/Tests.antt =====
-- Both ends of core/qps/dc.hh, on a library where every call succeeds.
use rlibv.Base.{◌≡◌, ◌⊎◌, refl, none, some}
use rlibv.Config.{max_send_sz}
use rlibv.Verbs.{qps_rts, qpt_dc_ini}
use rlibv.Verbs.Tests.{simple, simple-Documented}
use rlibv.Nic.Tests.{nic, config}
use rlibv.Qps.Impl.{create_cq, create_qp_ex, made}
use rlibv.Qps.Dc.{
  Dc, new, create, after_cq, after_qp, to_ready, bring_dc_to_init, bring_dc_to_rtr, bring_dc_to_rts,
}
use rlibv.Qps.Dc.Created.{Ready, create-Ended}

abbrev pub ready : Dc simple
ready = record {
  dummy = record {
    qp = some (record { state = qps_rts; type = qpt_dc_ini });
    cq = some 0;
    recv_cq = none;
    nic = nic;
  };
  my_config = config;
  out_signaled = 0;
}

pub created : create simple nic config ≡ some (some ready)
unfolding create new after_cq after_qp to_ready bring_dc_to_init bring_dc_to_rtr bring_dc_to_rts
    create_cq create_qp_ex made max_send_sz
created = refl

create-Ended_example : (ready.dummy.qp ≡ none) ⊎ Ready simple ready
create-Ended_example = create-Ended simple simple-Documented nic config ready created
