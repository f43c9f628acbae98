-- ===== src/Proto.antt =====
-- core/bootstrap/proto.hh: the packed requests and replies of the control path, with the structs of
-- core/rmem/handler.hh, core/naming.hh, core/qps/mod.hh and core/qps/dc.hh that travel in them, and
-- the headers of core/bootstrap/srpc.hh. `Structs` has the structs, and here are their layouts.
mod Structs
pub mod Wire
use rlibv.Base.{
  ℕ, ◌+◌, ◌-◌, ◌==◌, List, [], ◌∷◌, ◌++◌, get_or, take, drop, replicate, if◌then◌else◌,
}
use rlibv.Marshal.{ByteBuffer, Packed, memcpy}
use rlibv.Config.{QpConfig}
unfoldable pub use Structs.*

abbrev pub qp_attr_widths : List ℕ
qp_attr_widths = 8 ∷ 8 ∷ 4 ∷ 8 ∷ 8 ∷ 8 ∷ 8 ∷ 8 ∷ []

abbrev pub qp_attr_fields : QpAttr → List ℕ
qp_attr_fields a =
    a.addr.subnet_prefix ∷ a.addr.interface_id ∷ a.addr.local_id ∷ a.lid ∷ a.psn ∷ a.port_id ∷ a.qpn
    ∷ a.qkey ∷ []

abbrev pub of_qp_attr_fields : List ℕ → QpAttr
of_qp_attr_fields vs = record {
  addr = record {
    subnet_prefix = get_or vs 0 0;
    interface_id = get_or vs 1 0;
    local_id = get_or vs 2 0;
  };
  lid = get_or vs 3 0;
  psn = get_or vs 4 0;
  port_id = get_or vs 5 0;
  qpn = get_or vs 6 0;
  qkey = get_or vs 7 0;
}

abbrev pub config_fields : QpConfig → List ℕ
config_fields c =
    c.access_flags ∷ c.max_rd_atomic ∷ c.max_dest_rd_atomic ∷ c.rq_psn ∷ c.sq_psn ∷ c.timeout
    ∷ c.max_send_size ∷ c.max_recv_size ∷ c.qkey ∷ c.dc_key ∷ []

abbrev pub of_config_fields : List ℕ → QpConfig
of_config_fields vs = record {
  access_flags = get_or vs 0 0;
  max_rd_atomic = get_or vs 1 0;
  max_dest_rd_atomic = get_or vs 2 0;
  rq_psn = get_or vs 3 0;
  sq_psn = get_or vs 4 0;
  timeout = get_or vs 5 0;
  max_send_size = get_or vs 6 0;
  max_recv_size = get_or vs 7 0;
  qkey = get_or vs 8 0;
  dc_key = get_or vs 9 0;
}

abbrev pub rpc_header_layout : Packed SRpcHeader
rpc_header_layout = record {
  widths = 1 ∷ 8 ∷ [];
  fields = λ h. h.id ∷ h.checksum ∷ [];
  of_fields = λ vs. record { id = get_or vs 0 0; checksum = get_or vs 1 0 };
}

abbrev pub reply_header_layout : Packed SReplyHeader
reply_header_layout = record {
  widths = 1 ∷ 8 ∷ 1 ∷ [];
  fields = λ h. h.callstatus ∷ h.checksum ∷ h.dummy ∷ [];
  of_fields =
      λ vs. record { callstatus = get_or vs 0 0; checksum = get_or vs 1 0; dummy = get_or vs 2 0 };
}

abbrev pub mr_req_layout : Packed MrReq
mr_req_layout = record {
  widths = 8 ∷ [];
  fields = λ r. r.id ∷ [];
  of_fields = λ vs. record { id = get_or vs 0 0 };
}

abbrev pub mr_reply_layout : Packed MrReply
mr_reply_layout = record {
  widths = 1 ∷ 8 ∷ 8 ∷ 4 ∷ 4 ∷ [];
  fields = λ r. r.status ∷ r.attr.buf ∷ r.attr.sz ∷ r.attr.key ∷ r.attr.lkey ∷ [];
  of_fields = λ vs. record {
    status = get_or vs 0 0;
    attr = record {
      buf = get_or vs 1 0;
      sz = get_or vs 2 0;
      key = get_or vs 3 0;
      lkey = get_or vs 4 0;
    };
  };
}

abbrev pub qp_req_layout : Packed QpReq
qp_req_layout = record {
  widths = name_widths ++ (8 ∷ []);
  fields = λ r. r.name ++ (r.key ∷ []);
  of_fields = λ vs. record { name = take 64 vs; key = get_or (drop 64 vs) 0 0 };
}

-- what follows the two names in a `RcReq`
abbrev pub rc_req_rest_widths : List ℕ
rc_req_rest_widths =
    1 ∷ 1 ∷ 8 ∷ 4 ∷ 4 ∷ 4 ∷ 4 ∷ 4 ∷ 4 ∷ 4 ∷ 4 ∷ 4 ∷ 4 ∷ (qp_attr_widths ++ (8 ∷ []))

abbrev pub rc_req_rest : RcReq → List ℕ
rc_req_rest r =
    r.whether_create
    ∷ r.whether_recv
    ∷ r.nic_id
    ∷ (config_fields r.config ++ (qp_attr_fields r.attr ++ (r.max_recv_sz ∷ [])))

abbrev pub rc_req_layout : Packed RcReq
rc_req_layout = record {
  widths = name_widths ++ (name_widths ++ rc_req_rest_widths);
  fields = λ r. r.name ++ (r.name_recv ++ rc_req_rest r);
  of_fields = λ vs.
      let rest = drop 64 (drop 64 vs) in
      record {
        name = take 64 vs;
        name_recv = take 64 (drop 64 vs);
        whether_create = get_or rest 0 0;
        whether_recv = get_or rest 1 0;
        nic_id = get_or rest 2 0;
        config = of_config_fields (drop 3 rest);
        attr = of_qp_attr_fields (drop 13 rest);
        max_recv_sz = get_or rest 21 0;
      };
}

abbrev pub rc_reply_layout : Packed RcReply
rc_reply_layout = record {
  widths = 1 ∷ (qp_attr_widths ++ (8 ∷ []));
  fields = λ r. r.status ∷ (qp_attr_fields r.attr ++ (r.key ∷ []));
  of_fields = λ vs. record {
    status = get_or vs 0 0;
    attr = of_qp_attr_fields (drop 1 vs);
    key = get_or vs 9 0;
  };
}

abbrev pub dc_reply_layout : Packed DcReply
dc_reply_layout = record {
  widths = 1 ∷ 8 ∷ 4 ∷ 4 ∷ 8 ∷ [];
  fields = λ r. r.status ∷ r.attr.lid ∷ r.attr.dct_num ∷ r.attr.dc_key ∷ r.key ∷ [];
  of_fields = λ vs. record {
    status = get_or vs 0 0;
    attr = record { lid = get_or vs 1 0; dct_num = get_or vs 2 0; dc_key = get_or vs 3 0 };
    key = get_or vs 4 0;
  };
}

abbrev pub del_rc_req_layout : Packed DelRcReq
del_rc_req_layout = record {
  widths = name_widths ++ (8 ∷ []);
  fields = λ r. r.name ++ (r.key ∷ []);
  of_fields = λ vs. record { name = take 64 vs; key = get_or (drop 64 vs) 0 0 };
}
