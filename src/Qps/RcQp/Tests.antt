-- ===== src/Qps/RcQp/Tests.antt =====
-- An `RC` that is created, connected and sends: core/qps/rc.hh.
use rlibv.Base.{◌≡◌, ◌⊎◌, refl, true, false, none, some}
use rlibv.Base.Text.{codes}
use rlibv.Result.{make_ok, is_ok}
use rlibv.Config.{max_send_sz}
use rlibv.Proto.{RegAttr, null_qp_attr}
use rlibv.Verbs.{qps_init, qps_rts, qpt_rc}
use rlibv.Verbs.Tests.{simple, simple-Documented}
use rlibv.Nic.Tests.{nic, config}
use rlibv.Qps.Progress.{new_progress, forward}
use rlibv.Qps.Rc.{Rc, ReqDesc, ReqPayload, Sent, send_with, encode_my_wr}
use rlibv.Qps.Dummy.{valid, qp_status, int_to_u64}
use rlibv.Qps.Impl.{
  create_cq, create_qp, made, bring_qp_to_init, bring_rc_to_rcv, bring_rc_to_send, modified,
}
use rlibv.Qps.RcQp.{
  RcQp, new_state, new, create, after_cq, after_qp, connect, really_connect, my_attr,
}
use rlibv.Qps.RcQp.Connect.{Rts, connect-again}
use rlibv.Qps.RcQp.Reachable.{created, later, connects, sent-Rts}

abbrev fresh : Rc
fresh = record {
  local_mr = none;
  remote_mr = none;
  ready = false;
  progress = record { high_watermark = 0; low_watermark = 0 };
  out_signaled = 0;
}

abbrev pub initial : RcQp simple
initial = record {
  dummy = record {
    qp = some (record { state = qps_init; type = qpt_rc });
    cq = some 0;
    recv_cq = none;
    nic = nic;
  };
  my_config = config;
  state = fresh;
}

abbrev pub connected : RcQp simple
connected = record initial {
  dummy = record initial.dummy { qp = some (record { state = qps_rts; type = qpt_rc }) };
  state = record fresh { ready = true };
}

pub create_initial : create simple nic config none ≡ some (some initial)
unfolding create new new_state after_cq after_qp create_cq create_qp made bring_qp_to_init
    max_send_sz valid modified new_progress
create_initial = refl

connect_initial : connect simple initial null_qp_attr ≡ some (make_ok (codes ""), connected)
unfolding connect really_connect my_attr qp_status valid bring_rc_to_rcv bring_rc_to_send modified
    int_to_u64
connect_initial = refl

connect-again_example :
    ((is_ok (make_ok (codes "")) ≡ true)
      × Rts simple connected
      × (connect simple connected null_qp_attr
          ≡ some (make_ok (codes "already connected"), connected)))
    ⊎ ((is_ok (make_ok (codes "")) ≡ false) × (connected.state ≡ initial.state))
connect-again_example =
    connect-again simple simple-Documented initial connected null_qp_attr null_qp_attr
      (make_ok (codes "")) connect_initial

abbrev request : ReqDesc
request = record { op = 4; flags = 0; len = 8; wr_id = 73 }

abbrev payload : ReqPayload
payload = record { local_addr = 100; remote_addr = 8; imm_data = 0 }

abbrev region : RegAttr
region = record { buf = 4096; sz = 1024; key = 17; lkey = 18 }

abbrev sent : Sent
sent = record {
  result = make_ok (codes "");
  request = record {
    wr_id = 4784129;
    opcode = 4;
    send_flags = 0;
    imm_data = 0;
    remote_addr = 4104;
    rkey = 17;
    sge_addr = 100;
    sge_length = 8;
    sge_lkey = 18;
  };
  qp = record connected.state { progress = record { high_watermark = 1; low_watermark = 0 } };
}

sent_lem : send_with 2 none connected.state request payload region region ≡ some sent
unfolding send_with encode_my_wr forward
sent_lem = refl

sent-Rts_example : Rts simple connected
sent-Rts_example =
    sent-Rts simple simple-Documented nic config none connected
      (later (created create_initial) (connects null_qp_attr (make_ok (codes "")) connect_initial))
      2 none request payload region region sent sent_lem
