-- ===== src/Config.antt =====
-- core/qps/config.hh: the configuration of a queue pair.
--
-- The access flags are constants of the verbs library, and so a parameter. An `int` stands as the
-- number with its 32 bits.
use Prim.Native.Nat.{bit_and, bit_or}
use rlibv.Base.{ℕ, Bool, List, [], ◌++◌, if◌then◌else◌, ◌==◌, not}
use rlibv.Base.Text.{codes}

-- `IBV_ACCESS_*` of the verbs library
pub record Access : Type 0 where
  pub local_write : ℕ
  pub remote_write : ℕ
  pub remote_read : ℕ
  pub remote_atomic : ℕ

abbrev pub default_qkey : ℕ
default_qkey = 0x111111

abbrev pub default_psn : ℕ
default_psn = 3185

abbrev pub rc_max_send_sz : ℕ
rc_max_send_sz = 128

abbrev pub rc_max_recv_sz : ℕ
rc_max_recv_sz = 2048

abbrev pub default_dc_key : ℕ
default_dc_key = 1024

pub record QpConfig : Type 0 where
  pub access_flags : ℕ
  pub max_rd_atomic : ℕ
  pub max_dest_rd_atomic : ℕ
  pub rq_psn : ℕ
  pub sq_psn : ℕ
  pub timeout : ℕ
  pub max_send_size : ℕ
  pub max_recv_size : ℕ
  pub qkey : ℕ
  pub dc_key : ℕ

unfoldable pub set_access_flags : QpConfig → ℕ → QpConfig
set_access_flags c flags = record c { access_flags = flags }

unfoldable pub clear_access_flags : QpConfig → QpConfig
unfolding set_access_flags
clear_access_flags c = set_access_flags c 0

unfoldable pub set_max_rd_ops : QpConfig → ℕ → QpConfig
set_max_rd_ops c max_rd = record c { max_rd_atomic = max_rd; max_dest_rd_atomic = max_rd }

unfoldable pub set_psn : QpConfig → ℕ → QpConfig
set_psn c psn = record c { rq_psn = psn; sq_psn = psn }

-- `timeout = timeout` assigns the parameter to itself.
unfoldable pub set_timeout : QpConfig → ℕ → QpConfig
set_timeout c timeout' = c

unfoldable pub set_max_send : QpConfig → ℕ → QpConfig
set_max_send c num = record c { max_send_size = num }

unfoldable pub max_send_sz : QpConfig → ℕ
max_send_sz c = c.max_send_size

unfoldable pub set_max_recv : QpConfig → ℕ → QpConfig
set_max_recv c num = record c { max_recv_size = num }

unfoldable pub max_recv_sz : QpConfig → ℕ
max_recv_sz c = c.max_recv_size

unfoldable pub set_qkey : QpConfig → ℕ → QpConfig
set_qkey c k = record c { qkey = k }

unfoldable pub set_dc_key : QpConfig → ℕ → QpConfig
set_dc_key c k = record c { dc_key = k }

module _ (a : Access) where
  -- the default member initialisers
  unfoldable pub default_config : QpConfig
  default_config = record {
    access_flags = bit_or (bit_or a.remote_write a.remote_read) a.remote_atomic;
    max_rd_atomic = 16;
    max_dest_rd_atomic = 16;
    rq_psn = default_psn;
    sq_psn = default_psn;
    timeout = 20;
    max_send_size = rc_max_send_sz;
    max_recv_size = rc_max_recv_sz;
    qkey = default_qkey;
    dc_key = default_dc_key;
  }

  unfoldable pub add_access_write : QpConfig → QpConfig
  add_access_write c = record c { access_flags = bit_or c.access_flags a.remote_write }

  unfoldable pub add_access_read : QpConfig → QpConfig
  add_access_read c = record c { access_flags = bit_or c.access_flags a.remote_read }

  unfoldable pub add_access_atomic : QpConfig → QpConfig
  add_access_atomic c = record c { access_flags = bit_or c.access_flags a.remote_atomic }

  -- `(access_flags & flag) != 0`
  abbrev pub has_flag : QpConfig → ℕ → Bool
  has_flag c flag = not (bit_and c.access_flags flag == 0)

  unfoldable pub allow_remote_read : QpConfig → Bool
  allow_remote_read c = has_flag c a.remote_read

  unfoldable pub desc_access_flags : QpConfig → List ℕ
  desc_access_flags c =
      codes "The access flags of this qp: [ "
      ++ ((if has_flag c a.remote_write then codes "remote write," else [])
          ++ ((if has_flag c a.remote_read then codes "remote read," else [])
              ++ (if has_flag c a.remote_atomic then codes "remote atomic ]" else codes "]")))
