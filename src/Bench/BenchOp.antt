-- ===== src/Bench/BenchOp.antt =====
-- benchs/bench_op.hh: `BenchOp`, a request that goes to a random place of the remote buffer each time.
--
-- A pointer is its address; the buffers are arrays of numbers of 8 bytes. The two draws for a compare-and-swap
-- are arguments of one call, so C++ leaves their order open; here the left one is the first.
pub mod Bounds
use rlibv.Base.{
  ℕ, ◌+◌, ◌*◌, ◌%◌, Bool, true, false, Option, none, some, List, [], ◌∷◌, ◌==◌, not, ◌&&◌,
  if◌then◌else◌, u64_mod,
}
use rlibv.Qps.RecvEntries.{Sge}
use rlibv.Qps.Op.{
  Verbs, Op, set_read, set_write, set_cas, set_fetch_add, set_rdma_rbuf, set_atomic_rbuf,
  set_payload,
}
use rlibv.Qps.Op
use rlibv.Bench.FastRandom.{FastRandom, with_seed0, next}

-- `op_type`; any other `int` can be cast to it
pub data OpType : Type 0 where
  rdma_read rdma_write atomic_cas atomic_faa other : OpType

abbrev pub op_type : ℕ → OpType
op_type t =
    if t == 0
    then rdma_read
    else if t == 1
    then rdma_write
    else if t == 2
    then atomic_cas
    else if t == 3
    then atomic_faa
    else other

pub record BenchOp : Type 0 where
  pub op : Op
  pub type : OpType
  pub lbuf_base : ℕ
  pub rbuf_base : ℕ
  pub rbuf_random : ℕ
  pub lbuf_random : ℕ
  pub rand : FastRandom

unfoldable pub valid : BenchOp → Bool
valid b = not (b.lbuf_base == 0) && not (b.rbuf_base == 0)

-- `this->sges[0].addr = la`
abbrev pub with_addr : List Sge → ℕ → List Sge
with_addr [] la = []
with_addr (e ∷ es) la = record e { addr = la } ∷ es

abbrev pub at_remote : Op → ℕ → Op
at_remote o ra = record o { remote_addr = ra }

abbrev pub at_both : Op → ℕ → ℕ → Op
at_both o ra la = record o { remote_addr = ra; sges = with_addr o.sges la }

-- `base + index` for a pointer to 8 bytes
abbrev pub element : ℕ → ℕ → ℕ
element base index = (base + 8 * index) % u64_mod

abbrev pub rdma_to : Op → OpType → ℕ → ℕ → Op
rdma_to o rdma_read ra rk = set_rdma_rbuf o ra rk
rdma_to o rdma_write ra rk = set_rdma_rbuf o ra rk
rdma_to o atomic_cas ra rk = set_atomic_rbuf o ra rk
rdma_to o atomic_faa ra rk = set_atomic_rbuf o ra rk
rdma_to o other ra rk = o

unfoldable pub init_rbuf : BenchOp → ℕ → ℕ → ℕ → BenchOp
init_rbuf b ra rk random = record b {
  op = rdma_to b.op b.type ra rk;
  rbuf_base = ra;
  rbuf_random = random;
}

-- The result of `set_payload` is not looked at.
unfoldable pub init_lbuf : BenchOp → ℕ → ℕ → ℕ → ℕ → BenchOp
init_lbuf b la length lk random = record b {
  op = (set_payload b.op la length lk 0).1;
  lbuf_base = la;
  lbuf_random = random;
}

module _ (v : Verbs) where
  abbrev pub of_type : Op → OpType → Op
  of_type o rdma_read = set_read v o
  of_type o rdma_write = set_write v o
  of_type o atomic_cas = set_cas v o 0 0
  of_type o atomic_faa = set_fetch_add v o 0
  of_type o other = o

  unfoldable pub set_type : BenchOp → ℕ → BenchOp
  set_type b t = record b { op = of_type b.op (op_type t); type = op_type t }

  -- The constructor. The two ranges are not initialised in the source; here they are 0.
  unfoldable pub new : ℕ → ℕ → BenchOp
  unfolding set_type Op.new with_seed0
  new nsge t =
      set_type
        (record {
          op = Op.new nsge;
          type = other;
          lbuf_base = 0;
          rbuf_base = 0;
          rbuf_random = 0;
          lbuf_random = 0;
          rand = with_seed0 0;
        })
        t

  -- the switch of `refresh`, with the addresses that were drawn and the generator behind them
  unfoldable pub refreshed : BenchOp → OpType → ℕ → ℕ → FastRandom → BenchOp
  unfolding set_cas set_fetch_add Op.set_op
  refreshed b rdma_read ra la r = record b { op = at_remote b.op ra; rand = r }
  refreshed b rdma_write ra la r = record b { op = at_both b.op ra la; rand = r }
  refreshed b atomic_cas ra la r =
      let (comp, r₁) = next r in
      let (swap', r₂) = next r₁ in
      record b { op = set_cas v (at_both b.op ra la) (comp % 100) (swap' % 100); rand = r₂ }
  refreshed b atomic_faa ra la r =
      let (add, r₁) = next r in
      record b {
        op = record (set_fetch_add v (at_remote b.op ra) (add % 100)) {
          sges = with_addr b.op.sges la;
        };
        rand = r₁;
      }
  refreshed b other ra la r = record b { rand = r }

  -- `none` is the division by zero where a range is 0.
  unfoldable pub refresh : BenchOp → Option BenchOp
  refresh b =
      let (x, r₁) = next b.rand in
      let (y, r₂) = next r₁ in
      let drawn =
        refreshed b b.type (element b.rbuf_base (x % b.rbuf_random))
          (element b.lbuf_base (y % b.lbuf_random)) r₂ in
      if valid b
      then (if b.rbuf_random == 0 then none else if b.lbuf_random == 0 then none else some drawn)
      else some b
