-- ===== src/Qps/Dc.antt =====
-- core/qps/dc.hh: `DCTarget` and `DC`, the two ends of a dynamic connection.
--
-- An outer `none` is a failed assertion, a `value()` that is not there, or a null context. A pointer of
-- `DCTarget` that its constructor does not reach is `none`; in the source it is not initialised.
pub mod Created
pub mod Tests
use rlibv.Base.{
  ℕ, ◌+◌, ◌-◌, ◌%◌, Bool, true, false, Option, none, some, List, [], ◌∷◌, if◌then◌else◌, ◌>>=◌,
  u16_mod, u32_mod,
}
use rlibv.Base.Text.{codes}
use rlibv.Result.{Result, is_ok, make_ok, make_err, make_timeout}
use rlibv.Marshal.{ByteBuffer}
use rlibv.Config.{Access, QpConfig, max_send_sz}
use rlibv.Proto.{QpAttr, DcAttr}
use rlibv.Verbs.{
  Verbs, ModifyAttr, to_state, zero_ah_attr, qps_init, qps_rtr, qps_rts, qp_state, qp_pkey_index,
  qp_port, qp_dc_key, qp_path_mtu, qp_av, qp_timeout, qp_retry_cnt, qp_rnr_retry,
  qp_max_qp_rd_atomic,
}
use rlibv.Nic.{RNic}
use rlibv.Qps.Rc.{Wc, Poll, nothing, failed, completed}
use rlibv.Qps.Dummy.{Dummy, int_to_u64, explicit_dummy}
use rlibv.Qps.Impl.{Made, create_cq, create_srq, create_dct, create_qp_ex}

pub record DcTarget (v : Verbs) : Type 0 where
  pub dct : Option v.Dct
  pub srq : Option v.Srq
  pub my_config : QpConfig
  pub remote_dct_attr : Option DcAttr

pub record Dc (v : Verbs) : Type 0 where
  pub dummy : Dummy v
  pub my_config : QpConfig
  pub out_signaled : ℕ

-- the request that `post_send` makes; its id is not set
pub record ExpSendWr (v : Verbs) : Type 0 where
  pub exp_opcode : ℕ
  pub exp_send_flags : ℕ
  pub rkey : ℕ
  pub remote_addr : ℕ
  pub ah : v.Ah
  pub dct_access_key : ℕ
  pub dct_number : ℕ
  pub sge_length : ℕ
  pub sge_lkey : ℕ
  pub sge_addr : ℕ

pub record ReqDesc (v : Verbs) : Type 0 where
  pub op : ℕ
  pub send_flags : ℕ
  pub ah : v.Ah
  pub dct_num : ℕ
  pub dc_key : ℕ
  pub len : ℕ

pub record ReqPayload : Type 0 where
  pub laddr : ℕ
  pub raddr : ℕ
  pub lkey : ℕ
  pub rkey : ℕ

module _ (v : Verbs) where
  unfoldable pub after_dct : DcTarget v → RNic v → Made v.Dct → Option (DcTarget v)
  after_dct t nic res =
      if is_ok res
      then (res.desc.0 >>= λ dct. nic.lid >>= λ lid. some (record t {
        dct = some dct;
        remote_dct_attr =
            some (record { lid = lid; dct_num = v.dct_num dct; dc_key = t.my_config.dc_key });
      }))
      else some t

  unfoldable pub after_srq :
      Access → DcTarget v → RNic v → Option v.Cq → Made v.Srq → Option (DcTarget v)
  after_srq a t nic cq res =
      if is_ok res
      then create_dct v a nic cq res.desc.0 t.my_config.dc_key
        >>= after_dct (record t { srq = res.desc.0 }) nic
      else some t

  unfoldable pub after_target_cq : Access → DcTarget v → RNic v → Made v.Cq → Option (DcTarget v)
  after_target_cq a t nic res =
      if is_ok res
      then create_srq v nic (max_send_sz t.my_config) 1 >>= after_srq a t nic res.desc.0
      else some t

  -- the constructor of `DCTarget`
  unfoldable pub new_target : Access → RNic v → QpConfig → Option (DcTarget v)
  new_target a nic config =
      create_cq v 0 nic (max_send_sz config)
      >>= after_target_cq a
          (record { dct = none; srq = none; my_config = config; remote_dct_attr = none }) nic

  -- `DCTarget::create` does not look at what was constructed: the inner option always has a value.
  unfoldable pub create_target : Access → RNic v → QpConfig → Option (Option (DcTarget v))
  create_target a nic config = new_target a nic config >>= λ t. some (some t)

  -- `== 0`, with the queue pair
  abbrev pub succeeded : Option ByteBuffer × v.Qp → Bool × v.Qp
  succeeded (none, qp) = (true, qp)
  succeeded (some why, qp) = (false, qp)

  unfoldable pub bring_dc_to_init : v.Qp → Bool × v.Qp
  bring_dc_to_init qp = succeeded (
      v.exp_modify_qp qp
        (record (to_state qps_init) { pkey_index = 0; port_num = 1; access_flags = 0 })
        (qp_state ∷ qp_pkey_index ∷ qp_port ∷ qp_dc_key ∷ []))

  unfoldable pub bring_dc_to_rtr : v.Qp → Bool × v.Qp
  bring_dc_to_rtr qp = succeeded (
      v.exp_modify_qp qp
        (record (to_state qps_rtr) {
          path_mtu = v.mtu_4096;
          ah_attr = record zero_ah_attr { is_global = 0; port_num = 1; sl = 0 };
        })
        (qp_state ∷ qp_path_mtu ∷ qp_av ∷ []))

  unfoldable pub bring_dc_to_rts : v.Qp → Bool × v.Qp
  bring_dc_to_rts qp = succeeded (
      v.exp_modify_qp qp
        (record (to_state qps_rts) {
          timeout = 50;
          retry_cnt = 5;
          rnr_retry = 5;
          max_rd_atomic = 16;
        })
        (qp_state ∷ qp_timeout ∷ qp_retry_cnt ∷ qp_rnr_retry ∷ qp_max_qp_rd_atomic ∷ []))

  -- Step 3; the assertion fails where one of the changes does.
  unfoldable pub to_ready : Dc v → v.Qp → Option (Dc v)
  to_ready q qp =
      let (initial, qp₁) = bring_dc_to_init qp in
      let (received, qp₂) = bring_dc_to_rtr qp₁ in
      let (sent, qp₃) = bring_dc_to_rts qp₂ in
      if initial
      then (if received
          then (if sent then some (record q { dummy = record q.dummy { qp = some qp₃ } }) else none)
          else none)
      else none

  unfoldable pub after_qp : Dc v → Made v.Qp → Option (Dc v)
  after_qp q res = if is_ok res then (res.desc.0 >>= to_ready q) else some q

  unfoldable pub after_cq : Dc v → Option v.Cq → Made v.Cq → Option (Dc v)
  after_cq q recv_cq res =
      if is_ok res
      then create_qp_ex v q.dummy.nic q.my_config res.desc.0 recv_cq
        >>= after_qp (record q { dummy = record q.dummy { cq = res.desc.0 } })
      else some q

  -- the constructor of `DC`
  unfoldable pub new : RNic v → QpConfig → Option v.Cq → Option (Dc v)
  new nic config recv_cq =
      create_cq v 0 nic (max_send_sz config)
      >>= after_cq (record { dummy = explicit_dummy v nic; my_config = config; out_signaled = 0 })
          recv_cq

  -- `DC::create` does not look at what was constructed either.
  unfoldable pub create : RNic v → QpConfig → Option (Option (Dc v))
  create nic config = new nic config none >>= λ q. some (some q)

  unfoldable pub my_attr : Dc v → Option QpAttr
  my_attr q = q.dummy.nic.addr >>= λ addr. q.dummy.nic.lid >>= λ lid. q.dummy.qp >>= λ qp.
      some (record {
        addr = addr;
        lid = lid;
        psn = int_to_u64 q.my_config.rq_psn;
        port_id = q.dummy.nic.id.port_id;
        qpn = v.qp_num qp;
        qkey = 0;
      })

  -- `refused` is `none`, or the text of `errno` where `ibv_exp_post_send` fails.
  unfoldable pub post_send :
      Option ByteBuffer → ReqDesc v → ReqPayload → Result ByteBuffer × ExpSendWr v
  post_send refused desc payload = (
    elim refused [ none ↦ make_ok (codes "") | some why ↦ make_err why ],
    record {
      exp_opcode = desc.op;
      exp_send_flags = desc.send_flags;
      rkey = payload.rkey;
      remote_addr = payload.raddr;
      ah = desc.ah;
      dct_access_key = int_to_u64 desc.dc_key;
      dct_number = desc.dct_num;
      sge_length = desc.len;
      sge_lkey = payload.lkey;
      sge_addr = payload.laddr;
    },
  )

  -- `poll_send_comp` of `Dummy`
  abbrev pub polled : Dc v → Dc v
  polled q = record q { out_signaled = (q.out_signaled + (u32_mod - 1)) % u32_mod }

  -- The list has what the polls until the timeout bring; a timeout carries what is uninitialised.
  unfoldable pub wait_one_comp : Dc v → List Poll → Result (Option Wc) × Dc v
  wait_one_comp q [] = (make_timeout none, q)
  wait_one_comp q (nothing ∷ ps) = wait_one_comp q ps
  wait_one_comp q (failed wc ∷ ps) = (make_err (some wc), q)
  wait_one_comp q (completed wc ∷ ps) =
      (if wc.success then make_ok (some wc) else make_err (some wc), polled q)
