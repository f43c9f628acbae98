-- ===== src/Verbs.antt =====
-- The verbs library, which core/nic.hh, core/rmem/handler.hh and core/qps/impl.hh call: what the calls take
-- and give, and what the library documents of them. It is not code of the repository: it is a parameter.
--
-- A pointer that a call returns is `none` where it is null; where the code reads `errno`, its text stands in
-- place of the result. A queue pair is a value that a call gives back as it left it. The outcome of a call
-- depends on its arguments; `create_cq`, which is called twice by one constructor, takes the number of the
-- call too.
pub mod Tests
use rlibv.Base.{ℕ, ◌≡◌, Bool, true, Option, none, some, List, [], ◌∷◌, ◌⊎◌}
use rlibv.Marshal.{ByteBuffer}

-- `ibv_qp_state`
pub data QpState : Type 0 where
  qps_reset qps_init qps_rtr qps_rts qps_sqd qps_sqe qps_err : QpState

-- `ibv_qp_type`, with the one of the extended interface
pub data QpType : Type 0 where
  qpt_rc qpt_uc qpt_ud qpt_dc_ini qpt_other : QpType

-- `ibv_qp_attr_mask`, and its extended version
pub data AttrMask : Type 0 where
  qp_state qp_access_flags qp_pkey_index qp_port qp_qkey qp_av qp_path_mtu qp_timeout qp_retry_cnt
        qp_rnr_retry qp_rq_psn qp_max_qp_rd_atomic qp_min_rnr_timer qp_sq_psn qp_max_dest_rd_atomic
        qp_dest_qpn qp_dc_key :
      AttrMask

-- `ibv_ah_attr` with its `ibv_global_route`
pub record AhAttr : Type 0 where
  pub dlid : ℕ
  pub sl : ℕ
  pub src_path_bits : ℕ
  pub port_num : ℕ
  pub is_global : ℕ
  pub subnet_prefix : ℕ
  pub interface_id : ℕ
  pub sgid_index : ℕ
  pub flow_label : ℕ
  pub hop_limit : ℕ

abbrev pub zero_ah_attr : AhAttr
zero_ah_attr = record {
  dlid = 0;
  sl = 0;
  src_path_bits = 0;
  port_num = 0;
  is_global = 0;
  subnet_prefix = 0;
  interface_id = 0;
  sgid_index = 0;
  flow_label = 0;
  hop_limit = 0;
}

-- the members of `ibv_qp_attr` and `ibv_exp_qp_attr` that are set
pub record ModifyAttr : Type 0 where
  pub state : QpState
  pub path_mtu : ℕ
  pub qkey : ℕ
  pub rq_psn : ℕ
  pub sq_psn : ℕ
  pub dest_qp_num : ℕ
  pub access_flags : ℕ
  pub ah_attr : AhAttr
  pub pkey_index : ℕ
  pub port_num : ℕ
  pub max_rd_atomic : ℕ
  pub max_dest_rd_atomic : ℕ
  pub min_rnr_timer : ℕ
  pub timeout : ℕ
  pub retry_cnt : ℕ
  pub rnr_retry : ℕ

-- the zeroed struct with a state
abbrev pub to_state : QpState → ModifyAttr
to_state s = record {
  state = s;
  path_mtu = 0;
  qkey = 0;
  rq_psn = 0;
  sq_psn = 0;
  dest_qp_num = 0;
  access_flags = 0;
  ah_attr = zero_ah_attr;
  pkey_index = 0;
  port_num = 0;
  max_rd_atomic = 0;
  max_dest_rd_atomic = 0;
  min_rnr_timer = 0;
  timeout = 0;
  retry_cnt = 0;
  rnr_retry = 0;
}

-- `ibv_qp_init_attr`; the extended version has the protection domain in it.
pub record InitAttr (Cq : Type 0) : Type 0 where
  pub send_cq : Cq
  pub recv_cq : Cq
  pub type : QpType
  pub sq_sig_all : ℕ
  pub max_send_wr : ℕ
  pub max_recv_wr : ℕ
  pub max_send_sge : ℕ
  pub max_recv_sge : ℕ
  pub max_inline_data : ℕ

-- `ibv_exp_dct_init_attr`
pub record DctInitAttr (Pd Cq Srq : Type 0) : Type 0 where
  pub pd : Pd
  pub cq : Cq
  pub srq : Srq
  pub dc_key : ℕ
  pub port : ℕ
  pub access_flags : ℕ
  pub min_rnr_timer : ℕ
  pub tclass : ℕ
  pub flow_label : ℕ
  pub mtu : ℕ
  pub pkey_index : ℕ
  pub hop_limit : ℕ
  pub create_flags : ℕ
  pub inline_size : ℕ

-- what `ibv_query_port` tells of a port: whether it is active, the text for its state, its local id
pub record PortAttr : Type 0 where
  pub active : Bool
  pub state_str : ByteBuffer
  pub lid : ℕ

pub record Gid : Type 0 where
  pub subnet_prefix : ℕ
  pub interface_id : ℕ

pub record Verbs : Type 1 where
  pub Device : Type 0
  pub Ctx : Type 0
  pub Pd : Type 0
  pub Cq : Type 0
  pub Qp : Type 0
  pub Srq : Type 0
  pub Dct : Type 0
  pub Ah : Type 0
  pub Mr : Type 0
  pub mtu_4096 : ℕ
  pub get_device_list : List Device
  pub open_device : Device → Option Ctx
  pub query_device : Ctx → Option ℕ
  pub query_port : Ctx → ℕ → ByteBuffer ⊎ PortAttr
  pub query_gid : Ctx → ℕ → ℕ → Gid
  pub alloc_pd : Ctx → Option Pd
  pub reg_mr : Pd → ℕ → ℕ → ℕ → Option Mr
  pub rkey : Mr → ℕ
  pub lkey : Mr → ℕ
  pub create_cq : ℕ → Ctx → ℕ → ByteBuffer ⊎ Cq
  pub create_qp : Pd → InitAttr Cq → ByteBuffer ⊎ Qp
  pub create_qp_ex : Ctx → Pd → InitAttr Cq → ByteBuffer ⊎ Qp
  pub create_srq : Pd → ℕ → ℕ → ByteBuffer ⊎ Srq
  pub create_dct : Ctx → DctInitAttr Pd Cq Srq → ByteBuffer ⊎ Dct
  pub create_ah : Pd → AhAttr → Option Ah
  pub dct_num : Dct → ℕ
  pub qp_num : Qp → ℕ
  pub qp_type : Qp → QpType
  -- an error number, or none
  pub post_recv : Qp → List ℕ → Option ℕ × Qp
  -- none where the query fails
  pub query_qp : Qp → Option QpState
  pub modify_qp : Qp → ModifyAttr → List AttrMask → Option ByteBuffer × Qp
  pub exp_modify_qp : Qp → ModifyAttr → List AttrMask → Option ByteBuffer × Qp

-- What is documented of `ibv_modify_qp` and its extended version, for a mask that starts with the state: a
-- call that succeeds leaves the queue pair in the state that it asks for, one that fails leaves the queue
-- pair as it was; the number and the type stay.
pub record Documented (v : Verbs) : Type 0 where
  pub modified :
      (qp qp' : v.Qp) (attr : ModifyAttr) (rest : List AttrMask)
      → v.modify_qp qp attr (qp_state ∷ rest) ≡ (none, qp')
      → v.query_qp qp' ≡ some attr.state
  pub unmodified :
      (qp qp' : v.Qp) (attr : ModifyAttr) (rest : List AttrMask) (why : ByteBuffer)
      → v.modify_qp qp attr (qp_state ∷ rest) ≡ (some why, qp')
      → qp' ≡ qp
  pub exp_modified :
      (qp qp' : v.Qp) (attr : ModifyAttr) (rest : List AttrMask)
      → v.exp_modify_qp qp attr (qp_state ∷ rest) ≡ (none, qp')
      → v.query_qp qp' ≡ some attr.state
  pub same_num :
      (qp : v.Qp) (attr : ModifyAttr) (mask : List AttrMask)
      → v.qp_num (v.modify_qp qp attr mask).1 ≡ v.qp_num qp
  pub same_type :
      (qp : v.Qp) (attr : ModifyAttr) (mask : List AttrMask)
      → v.qp_type (v.modify_qp qp attr mask).1 ≡ v.qp_type qp
