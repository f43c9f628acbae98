-- ===== src/Verbs/Tests.antt =====
-- A verbs library with one device of two ports on which every call succeeds, for the tests of core/nic.hh
-- and core/qps.
use rlibv.Base.{none≢some, ℕ, suc, ◌≡◌, refl, sym, ap, true, none, some, Option, List, [], ◌∷◌, inr}
use rlibv.Marshal.{ByteBuffer}
use rlibv.Config.{Access}
use rlibv.Verbs.{Verbs, Documented, QpState, QpType, ModifyAttr, AttrMask, qp_state, qps_reset}

pub record SimpleQp : Type 0 where
  pub state : QpState
  pub type : QpType

abbrev pub to_asked : SimpleQp → ModifyAttr → List AttrMask → Option ByteBuffer × SimpleQp
to_asked qp attr mask = (none, record qp { state = attr.state })

abbrev pub simple : Verbs
simple = record {
  Device = ℕ;
  Ctx = ℕ;
  Pd = ℕ;
  Cq = ℕ;
  Qp = SimpleQp;
  Srq = ℕ;
  Dct = ℕ;
  Ah = ℕ;
  Mr = ℕ;
  mtu_4096 = 5;
  get_device_list = 10 ∷ [];
  open_device = λ d. some (suc d);
  query_device = λ c. some 2;
  query_port = λ c port. inr (record { active = true; state_str = []; lid = 4 });
  query_gid = λ c port index. record { subnet_prefix = 1; interface_id = 2 };
  alloc_pd = λ c. some c;
  reg_mr = λ pd addr len flags. some 8;
  rkey = λ m. m;
  lkey = λ m. suc m;
  create_cq = λ at c n. inr at;
  create_qp = λ pd attr. inr (record { state = qps_reset; type = attr.type });
  create_qp_ex = λ c pd attr. inr (record { state = qps_reset; type = attr.type });
  create_srq = λ pd n k. inr 3;
  create_dct = λ c attr. inr 6;
  create_ah = λ pd attr. some 1;
  dct_num = λ d. d;
  post_recv = λ qp wrs. (none, qp);
  qp_num = λ q. 30;
  qp_type = λ (q : SimpleQp). q.type;
  query_qp = λ (q : SimpleQp). some q.state;
  modify_qp = to_asked;
  exp_modify_qp = to_asked;
}

-- the flags of the access
abbrev pub flags : Access
flags = record { local_write = 1; remote_write = 2; remote_read = 4; remote_atomic = 8 }

asked_state :
    (qp qp' : SimpleQp) (attr : ModifyAttr) (mask : List AttrMask)
    → to_asked qp attr mask ≡ (none, qp')
    → some qp'.state ≡ some attr.state
asked_state qp qp' attr mask e = ap (λ (p : Option ByteBuffer × SimpleQp). some p.1.state) (sym e)

never_fails :
    (qp qp' : SimpleQp) (attr : ModifyAttr) (mask : List AttrMask) (why : ByteBuffer)
    → to_asked qp attr mask ≡ (some why, qp')
    → qp' ≡ qp
never_fails qp qp' attr mask why e =
    absurd (none≢some (ap (λ (p : Option ByteBuffer × SimpleQp). p.0) e))

pub simple-Documented : Documented simple
simple-Documented = record {
  modified = λ qp qp' attr rest e. asked_state qp qp' attr (qp_state ∷ rest) e;
  unmodified = λ qp qp' attr rest why e. never_fails qp qp' attr (qp_state ∷ rest) why e;
  exp_modified = λ qp qp' attr rest e. asked_state qp qp' attr (qp_state ∷ rest) e;
  same_num = λ qp attr mask. refl;
  same_type = λ qp attr mask. refl;
}
