-- ===== src/System.antt =====
-- The control path with the repository's own resources: the interface `Devices` of `RCtrl`, filled by
-- core/qps/rc.hh, core/qps/dc.hh, core/rmem/handler.hh and core/nic.hh on the verbs library.
--
-- Where `my_attr` throws, the interface has no place for it: the attributes are zeros then.
pub mod Ready
pub mod Connects
pub mod AllReady
pub mod Tests
use rlibv.Base.{ℕ, Option, none, some, List, [], ◌∷◌, ◌>>=◌}
use rlibv.Result.{Result, make_err}
use rlibv.Marshal.{ByteBuffer}
use rlibv.Config.{QpConfig}
use rlibv.Proto.{QpAttr, DcAttr, null_qp_attr, null_dc_attr}
use rlibv.Verbs.{Verbs}
use rlibv.Nic.{RNic}
use rlibv.Rmem.{RegHandler, get_reg_attr}
use rlibv.RCtrl.{Devices}
use rlibv.Qps.RcQp.{RcQp, with_qp, my_attr, connect, create}
use rlibv.Qps.Dc.{DcTarget}

module _ (v : Verbs) where
  abbrev pub or_zeros : Option QpAttr → QpAttr
  or_zeros none = null_qp_attr
  or_zeros (some a) = a

  abbrev pub or_dc_zeros : Option DcAttr → DcAttr
  or_dc_zeros none = null_dc_attr
  or_dc_zeros (some a) = a

  -- a queue pair behind `ibv_post_recv`
  abbrev pub posted : RcQp v → Option ℕ × v.Qp → Option ℕ × RcQp v
  posted q (res, qp) = (res, with_qp v q qp)

  abbrev pub posting : RcQp v → Option v.Qp → List ℕ → Option ℕ × RcQp v
  posting q none wrs = (some 0, q)
  posting q (some qp) wrs = posted q (v.post_recv qp wrs)

  abbrev pub devices : Devices
  devices = record {
    Nic = RNic v;
    Mr = RegHandler v;
    Rc = RcQp v;
    Dc = DcTarget v;
    Cq = v.Cq;
    get_reg_attr = get_reg_attr v;
    my_attr = λ q. or_zeros (my_attr v q);
    remote_dct_attr = λ (t : DcTarget v). or_dc_zeros t.remote_dct_attr;
    create = λ nic config cq. (create v nic config cq >>= λ q. q);
    connect = connect v;
    post_recv = λ (q : RcQp v) wrs. posting q q.dummy.qp wrs;
  }
