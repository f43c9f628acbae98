-- ===== src/Qps/Op.antt =====
-- core/qps/op.hh: `Op`, a send request that is built step by step and executed.
--
-- The union `wr` of a request has an `rdma` arm (address, 32-bit key) and an `atomic` arm (address,
-- `compare_add`, `swap`, 32-bit key). They share memory: the address is the same, and the key of the
-- first is the lower half of `compare_add`. The opcodes and `IBV_SEND_SIGNALED` are the verbs library's.
pub mod Execute
use Prim.Native.Nat.{bit_and}
use rlibv.Base.{
  ℕ, ◌+◌, ◌*◌, ◌/◌, ◌%◌, Bool, true, false, Option, none, some, List, [], ◌∷◌, length, ◌==◌, leb,
  set, replicate, if◌then◌else◌, u32_mod, u64_mod,
}
use rlibv.Base.Text.{codes}
use rlibv.Result.{Result, make_ok, make_err}
use rlibv.Marshal.{ByteBuffer}
use rlibv.Proto.{RegAttr}
use rlibv.Qps.RecvEntries.{Sge}
use rlibv.Qps.Rc.{Rc, encode_my_wr}

-- the verbs library's constants
pub record Verbs : Type 0 where
  pub rdma_read : ℕ
  pub rdma_write : ℕ
  pub cmp_and_swp : ℕ
  pub fetch_and_add : ℕ
  pub signaled : ℕ

-- `next` is the request behind this one, by some number.
pub record Op : Type 0 where
  pub wr_id : ℕ
  pub next : Option ℕ
  pub opcode : ℕ
  pub send_flags : ℕ
  pub imm_data : ℕ
  pub remote_addr : ℕ
  pub compare_add : ℕ
  pub swap : ℕ
  pub atomic_rkey : ℕ
  pub sges : List Sge

-- the constructor, for `nsge` entries: zeros
unfoldable pub new : ℕ → Op
new nsge = record {
  wr_id = 0;
  next = none;
  opcode = 0;
  send_flags = 0;
  imm_data = 0;
  remote_addr = 0;
  compare_add = 0;
  swap = 0;
  atomic_rkey = 0;
  sges = replicate nsge (record { addr = 0; len = 0; lkey = 0 });
}

-- the key of the `rdma` arm
abbrev pub rdma_rkey : Op → ℕ
rdma_rkey o = o.compare_add % u32_mod

unfoldable pub set_next : Op → ℕ → Op
set_next o n = record o { next = some n }

unfoldable pub set_op : Op → ℕ → Op
set_op o op = record o { opcode = op }

-- writes the lower half of `compare_add`
unfoldable pub set_rdma_rbuf : Op → ℕ → ℕ → Op
set_rdma_rbuf o ra rk = record o {
  remote_addr = ra;
  compare_add = o.compare_add / u32_mod * u32_mod + rk;
}

unfoldable pub set_rdma_addr : Op → ℕ → RegAttr → Op
unfolding set_rdma_rbuf
set_rdma_addr o off attr = set_rdma_rbuf o ((off + attr.buf) % u64_mod) attr.key

unfoldable pub set_imm : Op → ℕ → Op
set_imm o imm = record o { imm_data = imm }

unfoldable pub set_atomic_rbuf : Op → ℕ → ℕ → Op
unfolding set_imm
set_atomic_rbuf o ra rk = set_imm (record o { remote_addr = ra; atomic_rkey = rk }) 0

unfoldable pub set_flags : Op → ℕ → Op
set_flags o flags = record o { send_flags = flags }

unfoldable pub set_wrid : Op → ℕ → Op
set_wrid o id = record o { wr_id = id }

unfoldable pub set_atomic : Op → ℕ → ℕ → ℕ → ℕ → Op
unfolding set_imm
set_atomic o ra ca swap' rk =
    set_imm (record o { remote_addr = ra; compare_add = ca; swap = swap'; atomic_rkey = rk }) 0

unfoldable pub set_payload : Op → ℕ → ℕ → ℕ → ℕ → Bool × Op
set_payload o addr' length' lkey' index = if leb (length o.sges) index then (false, o) else (
  true,
  record o { sges = set o.sges index (record { addr = addr'; len = length'; lkey = lkey' }) },
)

-- What executing leaves: the result, the request as the device has it, and the queue pair.
pub record Executed : Type 0 where
  pub result : Result ByteBuffer
  pub request : Op
  pub qp : Rc

module _ (v : Verbs) where
  unfoldable pub set_read : Op → Op
  unfolding set_op
  set_read o = set_op o v.rdma_read

  unfoldable pub set_write : Op → Op
  unfolding set_op
  set_write o = set_op o v.rdma_write

  unfoldable pub set_cas : Op → ℕ → ℕ → Op
  unfolding set_op
  set_cas o comp swap' = set_op (record o { compare_add = comp; swap = swap' }) v.cmp_and_swp

  unfoldable pub set_fetch_add : Op → ℕ → Op
  unfolding set_op
  set_fetch_add o add = set_op (record o { compare_add = add; swap = 0 }) v.fetch_and_add

  -- The signaled request is counted even if posting it fails; `refused` is the text of `errno` then.
  unfoldable pub execute_batch : Option ByteBuffer → Op → Rc → Executed
  execute_batch refused o q = record {
    result = elim refused [ none ↦ make_ok (codes "") | some why ↦ make_err why ];
    request = o;
    qp =
        if bit_and o.send_flags v.signaled == 0
        then q
        else record q { out_signaled = (q.out_signaled + 1) % u32_mod };
  }

  unfoldable pub execute : Option ByteBuffer → Op → Rc → ℕ → ℕ → Executed
  unfolding execute_batch
  execute refused o q flags id =
      let (wr, q') = encode_my_wr q id 1 in
      execute_batch refused (record o { wr_id = wr; next = none; send_flags = flags }) q'
