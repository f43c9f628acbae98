-- ===== src/Qps/RcQp.antt =====
-- core/qps/rc.hh: `RC` with its queue pair of the verbs library: its construction and its connection. What
-- it keeps for its requests is the `Rc` of `Qps.Rc`.
--
-- An outer `none` is a failed assertion, a `value()` that is not there, or a null context.
pub mod Connect
pub mod Reachable
pub mod Tests
use rlibv.Base.{
  ℕ, ◌%◌, Bool, true, false, Option, none, some, List, [], ◌∷◌, if◌then◌else◌, ◌>>=◌, u64_mod,
}
use rlibv.Base.Text.{codes}
use rlibv.Result.{Result, make_ok, make_err, is_ok}
use rlibv.Marshal.{ByteBuffer}
use rlibv.Config.{QpConfig, max_send_sz}
use rlibv.Proto.{QpAttr, RAddress}
use rlibv.Verbs.{
  Verbs, QpState, qps_reset, qps_init, qps_rtr, qps_rts, qps_sqd, qps_sqe, qps_err, qpt_rc,
}
use rlibv.Nic.{RNic}
use rlibv.Qps.Progress.{new_progress}
use rlibv.Qps.Rc.{Rc}
use rlibv.Qps.Dummy.{Dummy, int_to_u64, explicit_dummy, valid, qp_status}
use rlibv.Qps.Impl.{Made, create_cq, create_qp, bring_qp_to_init, bring_rc_to_rcv, bring_rc_to_send}

pub record RcQp (v : Verbs) : Type 0 where
  pub dummy : Dummy v
  pub my_config : QpConfig
  pub state : Rc

-- the default member initialisers
unfoldable pub new_state : Rc
new_state = record {
  local_mr = none;
  remote_mr = none;
  ready = false;
  progress = new_progress;
  out_signaled = 0;
}

-- `case IBV_QPS_RTS`
abbrev pub is_rts : QpState → Bool
is_rts qps_rts = true
is_rts qps_reset = false
is_rts qps_init = false
is_rts qps_rtr = false
is_rts qps_sqd = false
is_rts qps_sqe = false
is_rts qps_err = false

module _ (v : Verbs) where
  -- Step 3: the result is only logged.
  abbrev pub after_init : RcQp v → Result ByteBuffer × v.Qp → RcQp v
  after_init q (res, qp) = record q { dummy = record q.dummy { qp = some qp } }

  -- behind step 2
  unfoldable pub after_qp : RcQp v → Made v.Qp → Option (RcQp v)
  after_qp q res =
      if is_ok res
      then (res.desc.0 >>= λ qp.
          bring_qp_to_init v qp q.my_config q.dummy.nic >>= λ r. some (after_init q r))
      else some q

  -- behind step 1
  unfoldable pub after_cq : RcQp v → Option v.Cq → Made v.Cq → Option (RcQp v)
  after_cq q recv_cq res =
      if is_ok res
      then (let q' = record q { dummy = record q.dummy { cq = res.desc.0; recv_cq = recv_cq } } in
          create_qp v q.dummy.nic qpt_rc q.my_config res.desc.0 recv_cq >>= after_qp q')
      else some q

  -- the constructor
  unfoldable pub new : RNic v → QpConfig → Option v.Cq → Option (RcQp v)
  new nic config recv_cq =
      create_cq v 0 nic (max_send_sz config)
      >>= after_cq (record { dummy = explicit_dummy v nic; my_config = config; state = new_state })
          recv_cq

  unfoldable pub create : RNic v → QpConfig → Option v.Cq → Option (Option (RcQp v))
  create nic config recv_cq =
      new nic config recv_cq >>= λ q. some (if valid v q.dummy then some q else none)

  unfoldable pub my_attr : RcQp v → Option QpAttr
  my_attr q = q.dummy.nic.addr >>= λ addr. q.dummy.nic.lid >>= λ lid. q.dummy.qp >>= λ qp.
      some (record {
        addr = addr;
        lid = lid;
        psn = int_to_u64 q.my_config.rq_psn;
        port_id = q.dummy.nic.id.port_id;
        qpn = v.qp_num qp;
        qkey = 0;
      })

  abbrev pub with_qp : RcQp v → v.Qp → RcQp v
  with_qp q qp = record q { dummy = record q.dummy { qp = some qp } }

  -- the end of `connect`, by what `bring_rc_to_send` gives
  abbrev pub sending : RcQp v → Result ByteBuffer × v.Qp → Result ByteBuffer × RcQp v
  sending q (res, qp) =
      if is_ok res
      then (make_ok (codes ""), record (with_qp q qp) { state = record q.state { ready = true } })
      else (res, with_qp q qp)

  -- by what `bring_rc_to_rcv` gives
  abbrev pub receiving : RcQp v → Result ByteBuffer × v.Qp → Result ByteBuffer × RcQp v
  receiving q (res, qp) =
      let sent = sending (with_qp q qp) (bring_rc_to_send v qp q.my_config) in
      if is_ok res then sent else (res, with_qp q qp)

  -- `default:`
  unfoldable pub really_connect : RcQp v → QpAttr → Option (Result ByteBuffer × RcQp v)
  really_connect q attr = my_attr q >>= λ mine.
      q.dummy.qp >>= λ qp. some (receiving q (bring_rc_to_rcv v qp q.my_config attr mine.port_id))

  unfoldable pub connect : RcQp v → QpAttr → Option (Result ByteBuffer × RcQp v)
  connect q attr = qp_status v q.dummy >>= λ res.
      if is_ok res
      then (if is_rts res.desc
          then some (make_ok (codes "already connected"), q)
          else really_connect q attr)
      else some (make_err (codes "QP not valid"), q)
