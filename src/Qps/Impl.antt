-- ===== src/Qps/Impl.antt =====
-- core/qps/impl.hh: the calls of the verbs library that create queue pairs and change their states.
--
-- An outer `none` is a failed assertion, or a call with a null context or protection domain. An `int` is
-- stored in a member with fewer bits with its low ones.
use Prim.Native.Nat.{bit_or}
use rlibv.Base.{ℕ, ◌%◌, Option, none, some, [], ◌∷◌, ◌⊎◌, inl, inr, ◌>>=◌, u32_mod, u16_mod, u8_mod}
use rlibv.Base.Text.{codes}
use rlibv.Result.{Result, make_ok, make_err}
use rlibv.Marshal.{ByteBuffer}
use rlibv.Config.{Access, QpConfig, max_send_sz, max_recv_sz}
use rlibv.Proto.{QpAttr}
use rlibv.Verbs.{
  Verbs, ModifyAttr, QpType, to_state, zero_ah_attr, qps_init, qps_rtr, qps_rts, qpt_rc, qpt_ud,
  qpt_uc, qpt_dc_ini, qpt_other, qp_state, qp_access_flags, qp_pkey_index, qp_port, qp_qkey, qp_av,
  qp_path_mtu, qp_timeout, qp_retry_cnt, qp_rnr_retry, qp_rq_psn, qp_max_qp_rd_atomic,
  qp_min_rnr_timer, qp_sq_psn, qp_max_dest_rd_atomic, qp_dest_qpn,
}
use rlibv.Nic.{RNic}
use rlibv.Qps.Dummy.{int_to_u64}

abbrev pub max_inline_sz : ℕ
max_inline_sz = 64

-- The result of a call that gives a pointer: the pointer, with a text.
abbrev pub Made : Type 0 → Type 0
Made A = Result (Option A × ByteBuffer)

unfoldable pub made : {A : Type 0} → ByteBuffer ⊎ A → Made A
made (inl why) = make_err (none, why)
made (inr a) = make_ok (some a, codes "")

abbrev pub null_arg : {A : Type 0} → ByteBuffer → Made A
null_arg why = make_err (none, why)

module _ (v : Verbs) where
  -- the result by what `ibv_modify_qp` returns
  unfoldable pub modified : Option ByteBuffer × v.Qp → Result ByteBuffer × v.Qp
  modified (none, qp) = (make_ok (codes ""), qp)
  modified (some why, qp) = (make_err why, qp)

  abbrev pub init_attr : QpConfig → RNic v → ModifyAttr
  init_attr config nic = record (to_state qps_init) {
    pkey_index = 0;
    port_num = nic.id.port_id % u8_mod;
  }

  -- Only `RC` and `UD` have a branch that does not fail.
  abbrev pub init_by_type : QpType → v.Qp → QpConfig → RNic v → Option (Result ByteBuffer × v.Qp)
  init_by_type qpt_rc qp config nic = some (
      modified (
        v.modify_qp qp (record (init_attr config nic) { access_flags = config.access_flags })
          (qp_state ∷ qp_pkey_index ∷ qp_port ∷ qp_access_flags ∷ [])))
  init_by_type qpt_ud qp config nic = some (
      modified (
        v.modify_qp qp (record (init_attr config nic) { qkey = config.qkey })
          (qp_state ∷ qp_pkey_index ∷ qp_port ∷ qp_qkey ∷ [])))
  init_by_type qpt_uc qp config nic = none
  init_by_type qpt_dc_ini qp config nic = none
  init_by_type qpt_other qp config nic = none

  unfoldable pub bring_qp_to_init : v.Qp → QpConfig → RNic v → Option (Result ByteBuffer × v.Qp)
  bring_qp_to_init qp config nic = init_by_type (v.qp_type qp) qp config nic

  abbrev pub rcv_attr : QpConfig → QpAttr → ℕ → ModifyAttr
  rcv_attr config attr port_id = record (to_state qps_rtr) {
    path_mtu = v.mtu_4096;
    dest_qp_num = attr.qpn % u32_mod;
    rq_psn = config.rq_psn;
    max_dest_rd_atomic = config.max_dest_rd_atomic % u8_mod;
    min_rnr_timer = 20;
    ah_attr = record zero_ah_attr {
      dlid = attr.lid % u16_mod;
      sl = 0;
      src_path_bits = 0;
      port_num = port_id % u8_mod;
      is_global = 1;
      subnet_prefix = attr.addr.subnet_prefix;
      interface_id = attr.addr.interface_id;
      sgid_index = 0;
      flow_label = 0;
      hop_limit = 255;
    };
  }

  unfoldable pub bring_rc_to_rcv : v.Qp → QpConfig → QpAttr → ℕ → Result ByteBuffer × v.Qp
  bring_rc_to_rcv qp config attr port_id = modified (
      v.modify_qp qp (rcv_attr config attr port_id) (
        qp_state ∷ qp_av ∷ qp_path_mtu ∷ qp_dest_qpn ∷ qp_rq_psn ∷ qp_max_dest_rd_atomic
        ∷ qp_min_rnr_timer ∷ []))

  abbrev pub send_attr : QpConfig → ModifyAttr
  send_attr config = record (to_state qps_rts) {
    sq_psn = config.sq_psn;
    timeout = config.timeout % u8_mod;
    retry_cnt = 7;
    rnr_retry = 7;
    max_rd_atomic = config.max_rd_atomic % u8_mod;
    max_dest_rd_atomic = config.max_dest_rd_atomic % u8_mod;
  }

  unfoldable pub bring_rc_to_send : v.Qp → QpConfig → Result ByteBuffer × v.Qp
  bring_rc_to_send qp config = modified (
      v.modify_qp qp (send_attr config) (
        qp_state ∷ qp_sq_psn ∷ qp_timeout ∷ qp_retry_cnt ∷ qp_rnr_retry ∷ qp_max_qp_rd_atomic ∷ []))

  -- the first argument is the number of the call
  unfoldable pub create_cq : ℕ → RNic v → ℕ → Option (Made v.Cq)
  create_cq at nic cq_sz = nic.ctx >>= λ ctx. some (made (v.create_cq at ctx cq_sz))

  -- `if (recv_cq == nullptr) recv_cq = cq;`
  abbrev pub or_same : Option v.Cq → v.Cq → v.Cq
  or_same none cq = cq
  or_same (some recv_cq) cq = recv_cq

  unfoldable pub create_qp :
      RNic v → QpType → QpConfig → Option v.Cq → Option v.Cq → Option (Made v.Qp)
  create_qp nic type config none recv_cq = some (null_arg (codes "CQ passed in as null"))
  create_qp nic type config (some cq) recv_cq = nic.pd >>= λ pd. some (
      made (
        v.create_qp pd (record {
          send_cq = cq;
          recv_cq = or_same recv_cq cq;
          type = type;
          sq_sig_all = 0;
          max_send_wr = max_send_sz config;
          max_recv_wr = max_recv_sz config;
          max_send_sge = 1;
          max_recv_sge = 1;
          max_inline_data = max_inline_sz;
        })))

  unfoldable pub create_srq : RNic v → ℕ → ℕ → Option (Made v.Srq)
  create_srq nic max_wr max_sge = nic.pd >>= λ pd. some (made (v.create_srq pd max_wr max_sge))

  unfoldable pub create_dct : Access → RNic v → Option v.Cq → Option v.Srq → ℕ → Option (Made v.Dct)
  create_dct a nic none srq dc_key = some (null_arg (codes "CQ passed in as null"))
  create_dct a nic (some cq) none dc_key = some (null_arg (codes "SRQ passed in as null"))
  create_dct a nic (some cq) (some srq) dc_key = nic.ctx >>= λ ctx. nic.pd >>= λ pd. some (
      made (
        v.create_dct ctx (record {
          pd = pd;
          cq = cq;
          srq = srq;
          dc_key = int_to_u64 dc_key;
          port = 1;
          access_flags = bit_or a.remote_write a.remote_read;
          min_rnr_timer = 2;
          tclass = 0;
          flow_label = 0;
          mtu = v.mtu_4096;
          pkey_index = 0;
          hop_limit = 1;
          create_flags = 0;
          inline_size = 60;
        })))

  unfoldable pub create_qp_ex : RNic v → QpConfig → Option v.Cq → Option v.Cq → Option (Made v.Qp)
  create_qp_ex nic config none recv_cq = some (null_arg (codes "CQ passed in as null"))
  create_qp_ex nic config (some cq) recv_cq = nic.ctx >>= λ ctx. nic.pd >>= λ pd. some (
      made (
        v.create_qp_ex ctx pd (record {
          send_cq = cq;
          recv_cq = or_same recv_cq cq;
          type = qpt_dc_ini;
          sq_sig_all = 0;
          max_send_wr = max_send_sz config;
          max_recv_wr = 0;
          max_send_sge = 1;
          max_recv_sge = 0;
          max_inline_data = max_inline_sz;
        })))
