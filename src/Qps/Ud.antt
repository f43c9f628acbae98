-- ===== src/Qps/Ud.antt =====
-- core/qps/ud.hh: `UD`, a queue pair of unreliable datagrams.
--
-- An outer `none` is a failed assertion, a `value()` that is not there, or a null context.
pub mod Created
mod Tests
use rlibv.Base.{
  ℕ, ◌%◌, Bool, true, false, Option, none, some, List, [], ◌∷◌, if◌then◌else◌, ◌>>=◌, u16_mod,
  u8_mod,
}
use rlibv.Result.{Result, is_ok}
use rlibv.Marshal.{ByteBuffer}
use rlibv.Config.{QpConfig, max_send_sz, max_recv_sz}
use rlibv.Proto.{QpAttr}
use rlibv.Verbs.{
  Verbs, AhAttr, to_state, zero_ah_attr, qps_rtr, qps_rts, qpt_ud, qp_state, qp_sq_psn,
}
use rlibv.Nic.{RNic}
use rlibv.Qps.Dummy.{Dummy, int_to_u64, explicit_dummy, there, valid}
use rlibv.Qps.Impl.{Made, create_cq, create_qp, bring_qp_to_init}

pub record Ud (v : Verbs) : Type 0 where
  pub dummy : Dummy v
  pub my_config : QpConfig

module _ (v : Verbs) where
  -- `rc == 0`, with the queue pair
  abbrev pub succeeded : Option ByteBuffer × v.Qp → Bool × v.Qp
  succeeded (none, qp) = (true, qp)
  succeeded (some why, qp) = (false, qp)

  unfoldable pub bring_ud_to_recv : v.Qp → Bool × v.Qp
  bring_ud_to_recv qp = succeeded (v.modify_qp qp (to_state qps_rtr) (qp_state ∷ []))

  unfoldable pub bring_ud_to_send : v.Qp → ℕ → Bool × v.Qp
  bring_ud_to_send qp psn =
      succeeded
        (v.modify_qp qp (record (to_state qps_rts) { sq_psn = psn }) (qp_state ∷ qp_sq_psn ∷ []))

  abbrev pub with_qp : Ud v → v.Qp → Ud v
  with_qp q qp = record q { dummy = record q.dummy { qp = some qp } }

  -- The two changes of state behind the first; the assertion fails where one of them does.
  unfoldable pub to_ready : Ud v → v.Qp → Option (Ud v)
  to_ready q qp =
      let (received, qp₁) = bring_ud_to_recv qp in
      let (sent, qp₂) = bring_ud_to_send qp₁ q.my_config.rq_psn in
      if received then (if sent then some (with_qp q qp₂) else none) else none

  unfoldable pub after_init : Ud v → Result ByteBuffer × v.Qp → Option (Ud v)
  after_init q (res, qp) = if is_ok res then to_ready q qp else none

  -- behind `create_qp`; here `cq` is there, so `valid()` holds
  unfoldable pub after_qp : Ud v → Made v.Qp → Option (Ud v)
  after_qp q res =
      if is_ok res
      then (res.desc.0 >>= λ qp. bring_qp_to_init v qp q.my_config q.dummy.nic >>= after_init q)
      else some q

  -- behind the second `create_cq`
  unfoldable pub after_recv_cq : Ud v → Made v.Cq → Option (Ud v)
  after_recv_cq q res =
      if is_ok res
      then create_qp v q.dummy.nic qpt_ud q.my_config q.dummy.cq res.desc.0
        >>= after_qp (record q { dummy = record q.dummy { recv_cq = res.desc.0 } })
      else some q

  unfoldable pub after_cq : Ud v → Made v.Cq → Option (Ud v)
  after_cq q res =
      if is_ok res
      then create_cq v 1 q.dummy.nic (max_recv_sz q.my_config)
        >>= after_recv_cq (record q { dummy = record q.dummy { cq = res.desc.0 } })
      else some q

  -- the constructor
  unfoldable pub new : RNic v → QpConfig → Option (Ud v)
  new nic config =
      create_cq v 0 nic (max_send_sz config)
      >>= after_cq (record { dummy = explicit_dummy v nic; my_config = config })

  unfoldable pub create : RNic v → QpConfig → Option (Option (Ud v))
  create nic config = new nic config >>= λ q. some (if valid v q.dummy then some q else none)

  unfoldable pub my_attr : Ud v → Option QpAttr
  my_attr q = q.dummy.nic.addr >>= λ addr. q.dummy.nic.lid >>= λ lid. q.dummy.qp >>= λ qp.
      some (record {
        addr = addr;
        lid = lid;
        psn = int_to_u64 q.my_config.rq_psn;
        port_id = q.dummy.nic.id.port_id;
        qpn = v.qp_num qp;
        qkey = int_to_u64 q.my_config.qkey;
      })

  abbrev pub ah_attr_of : QpAttr → ℕ → ℕ → AhAttr
  ah_attr_of attr port_id local_id = record zero_ah_attr {
    is_global = 1;
    dlid = attr.lid % u16_mod;
    sl = 0;
    src_path_bits = 0;
    port_num = port_id % u8_mod;
    subnet_prefix = attr.addr.subnet_prefix;
    interface_id = attr.addr.interface_id;
    flow_label = 0;
    hop_limit = 255;
    sgid_index = local_id % u8_mod;
  }

  -- the inner `none` is the null pointer of `ibv_create_ah`
  unfoldable pub create_ah : Ud v → QpAttr → Option (Option v.Ah)
  create_ah q attr = q.dummy.nic.addr >>= λ addr. q.dummy.nic.pd >>= λ pd.
      some (v.create_ah pd (ah_attr_of attr q.dummy.nic.id.port_id addr.local_id))
