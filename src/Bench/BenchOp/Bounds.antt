-- ===== src/Bench/BenchOp/Bounds.antt =====
-- A request of benchs/bench_op.hh stays inside of its buffers, and stays the operation that it was made for.
use rlibv.Base.{
  ℕ, zero, suc, ◌+◌, ◌*◌, ◌%◌, ◌≤◌, ◌<◌, ◌≡◌, ◌≢◌, false, refl, sym, ap, ◌∙◌, true, Option, some,
  [], ◌∷◌, arith, ◌==◌, u32_mod, u64_mod, ◌>>=◌,
}
use native.Mathlib.Nat.{mod-lt}
use rlibv.Qps.Op.{
  Verbs, Op, rdma_rkey, set_read, set_write, set_cas, set_fetch_add, set_rdma_rbuf, set_atomic_rbuf,
  set_payload,
}
use rlibv.Qps.Op
use rlibv.Bench.FastRandom.{FastRandom, next}
use rlibv.Bench.BenchOp.{
  BenchOp, OpType, rdma_read, rdma_write, atomic_cas, atomic_faa, other, op_type, element, valid,
  init_rbuf, init_lbuf, new, refreshed, refresh, rdma_to, of_type, at_remote, at_both, with_addr,
}

-- one of `n` numbers from `base` on
abbrev pub InRange : ℕ → ℕ → ℕ → Type 0
InRange base n addr = (i : ℕ) × (i < n) × (addr ≡ base + 8 * i)

module _ (v : Verbs) where
  abbrev pub opcode_of : OpType → ℕ
  opcode_of rdma_read = v.rdma_read
  opcode_of rdma_write = v.rdma_write
  opcode_of atomic_cas = v.cmp_and_swp
  opcode_of atomic_faa = v.fetch_and_add
  opcode_of other = 0

  -- the key in the arm of the union that the operation reads
  abbrev pub key_of : OpType → Op → ℕ
  key_of rdma_read o = rdma_rkey o
  key_of rdma_write o = rdma_rkey o
  key_of atomic_cas o = o.atomic_rkey
  key_of atomic_faa o = o.atomic_rkey
  key_of other o = 0

  -- The request is the operation of its type, with the right keys, and its addresses lie in the two buffers.
  -- Its type and its buffers are those of `b₀`.
  pub record IsReady (b₀ : BenchOp) (rk len lk : ℕ) (b : BenchOp) : Type 0 where
    pub same_type : b.type ≡ b₀.type
    pub same_rbuf : b.rbuf_base ≡ b₀.rbuf_base
    pub same_lbuf : b.lbuf_base ≡ b₀.lbuf_base
    pub same_rrandom : b.rbuf_random ≡ b₀.rbuf_random
    pub same_lrandom : b.lbuf_random ≡ b₀.lbuf_random
    pub known : b.type ≢ other
    pub is_valid : valid b ≡ true
    pub has_rbuf : 0 < b.rbuf_random
    pub has_lbuf : 0 < b.lbuf_random
    pub rbuf_fits : b.rbuf_base + 8 * b.rbuf_random ≤ u64_mod
    pub lbuf_fits : b.lbuf_base + 8 * b.lbuf_random ≤ u64_mod
    pub opcode : b.op.opcode ≡ opcode_of b.type
    pub key : key_of b.type b.op ≡ rk
    pub remote : InRange b.rbuf_base b.rbuf_random b.op.remote_addr
    pub laddr : ℕ
    pub inside : InRange b.lbuf_base b.lbuf_random laddr
    pub sges : b.op.sges ≡ record { addr = laddr; len = len; lkey = lk } ∷ []

  element-InRange :
      (base n x : ℕ) → 0 < n → base + 8 * n ≤ u64_mod → InRange base n (element base (x % n))
  element-InRange base n x pos fits = (x % n, mod-lt x pos, omega (arith, mod-lt x pos))

  with_op-IsReady :
      (b₀ : BenchOp) (rk len lk : ℕ) (b : BenchOp) (o : Op) (r : FastRandom) (la : ℕ)
      → IsReady b₀ rk len lk b
      → o.opcode ≡ opcode_of b.type
      → key_of b.type o ≡ key_of b.type b.op
      → InRange b.rbuf_base b.rbuf_random o.remote_addr
      → InRange b.lbuf_base b.lbuf_random la
      → o.sges ≡ record { addr = la; len = len; lkey = lk } ∷ []
      → IsReady b₀ rk len lk (record b { op = o; rand = r })
  unfolding valid
  with_op-IsReady b₀ rk len lk b o r la h opcode key remote inside sges = record {
    same_type = h.same_type;
    same_rbuf = h.same_rbuf;
    same_lbuf = h.same_lbuf;
    same_rrandom = h.same_rrandom;
    same_lrandom = h.same_lrandom;
    known = h.known;
    is_valid = h.is_valid;
    has_rbuf = h.has_rbuf;
    has_lbuf = h.has_lbuf;
    rbuf_fits = h.rbuf_fits;
    lbuf_fits = h.lbuf_fits;
    opcode = opcode;
    key = key ∙ h.key;
    remote = remote;
    laddr = la;
    inside = inside;
    sges = sges;
  }

  refreshed-IsReady :
      (b₀ : BenchOp) (rk len lk : ℕ) (b : BenchOp) (t : OpType) (ra la : ℕ) (r : FastRandom)
      → b.type ≡ t
      → IsReady b₀ rk len lk b
      → InRange b.rbuf_base b.rbuf_random ra
      → InRange b.lbuf_base b.lbuf_random la
      → IsReady b₀ rk len lk (refreshed v b t ra la r)
  unfolding refreshed set_cas set_fetch_add
  refreshed-IsReady b₀ rk len lk b rdma_read ra la r e h k l =
      with_op-IsReady b₀ rk len lk b (at_remote b.op ra) r h.laddr h h.opcode (rw e refl) k h.inside
        h.sges
  refreshed-IsReady b₀ rk len lk b rdma_write ra la r e h k l =
      with_op-IsReady b₀ rk len lk b (at_both b.op ra la) r la h h.opcode (rw e refl) k l
        (ap (λ s. with_addr s la) h.sges)
  refreshed-IsReady b₀ rk len lk b atomic_cas ra la r e h k l =
      with_op-IsReady b₀ rk len lk b _ _ la h (ap opcode_of (sym e)) (rw e refl) k l
        (ap (λ s. with_addr s la) h.sges)
  refreshed-IsReady b₀ rk len lk b atomic_faa ra la r e h k l =
      with_op-IsReady b₀ rk len lk b _ _ la h (ap opcode_of (sym e)) (rw e refl) k l
        (ap (λ s. with_addr s la) h.sges)
  refreshed-IsReady b₀ rk len lk b other ra la r e h k l = absurd (h.known e)

  refresh-IsReady :
      (b₀ : BenchOp) (rk len lk : ℕ) (b : BenchOp)
      → IsReady b₀ rk len lk b
      → (b' : BenchOp) × (refresh v b ≡ some b') × IsReady b₀ rk len lk b'
  unfolding refresh
  refresh-IsReady b₀ rk len lk b h =
      let (x, r₁) = next b.rand in
      let (y, r₂) = next r₁ in
      let ra = element b.rbuf_base (x % b.rbuf_random) in
      let la = element b.lbuf_base (y % b.lbuf_random) in
      let remote_pos : (b.rbuf_random == 0) ≡ false = ground (arith, h.has_rbuf) in
      let local_pos : (b.lbuf_random == 0) ≡ false = ground (arith, h.has_lbuf) in
      (
        refreshed v b b.type ra la r₂,
        rw (h.is_valid, remote_pos, local_pos, refresh) refl,
        refreshed-IsReady b₀ rk len lk b b.type ra la r₂ refl h
            (element-InRange b.rbuf_base b.rbuf_random x h.has_rbuf h.rbuf_fits)
            (element-InRange b.lbuf_base b.lbuf_random y h.has_lbuf h.lbuf_fits),
      )

  -- `n` calls of `refresh`
  unfoldable pub refreshes : ℕ → BenchOp → Option BenchOp
  refreshes zero b = some b
  refreshes (suc n) b = refresh v b >>= refreshes n

  refreshes-IsReady :
      (n : ℕ) (b₀ : BenchOp) (rk len lk : ℕ) (b : BenchOp)
      → IsReady b₀ rk len lk b
      → (b' : BenchOp) × (refreshes n b ≡ some b') × IsReady b₀ rk len lk b'
  unfolding refreshes
  refreshes-IsReady zero b₀ rk len lk b h = (b, refl, h)
  refreshes-IsReady (suc n) b₀ rk len lk b h =
      let (b₁, e, h₁) = refresh-IsReady b₀ rk len lk b h in
      let (b₂, e₂, h₂) = refreshes-IsReady n b₀ rk len lk b₁ h₁ in (b₂, rw e e₂, h₂)

  -- a client's request as it is made, for an operation, a local and a remote buffer with their keys
  abbrev pub made : ℕ → ℕ → ℕ → ℕ → ℕ → ℕ → ℕ → ℕ → BenchOp
  made t la len lk lrandom ra rk rrandom =
      init_rbuf (init_lbuf (new v 1 t) la len lk lrandom) ra rk rrandom

  abbrev started : OpType → ℕ → ℕ → ℕ → ℕ → ℕ → Op
  started t la len lk ra rk = rdma_to (set_payload (of_type v (Op.new 1) t) la len lk 0).1 t ra rk

  started_parts :
      (t : OpType) (la len lk ra rk : ℕ)
      → t ≢ other
      → rk < u32_mod
      → ((started t la len lk ra rk).opcode ≡ opcode_of t)
        × (key_of t (started t la len lk ra rk) ≡ rk)
        × ((started t la len lk ra rk).remote_addr ≡ ra)
        × ((started t la len lk ra rk).sges ≡ record { addr = la; len = len; lkey = lk } ∷ [])
  unfolding Op.new set_payload set_rdma_rbuf set_atomic_rbuf set_read set_write set_cas
      set_fetch_add
  started_parts rdma_read la len lk ra rk h small = (refl, omega arith, refl, refl)
  started_parts rdma_write la len lk ra rk h small = (refl, omega arith, refl, refl)
  started_parts atomic_cas la len lk ra rk h small = (refl, refl, refl, refl)
  started_parts atomic_faa la len lk ra rk h small = (refl, refl, refl, refl)
  started_parts other la len lk ra rk h small = absurd (h refl)

  op_type_known : (t : ℕ) → t < 4 → op_type t ≢ other
  op_type_known zero h e = cc
  op_type_known (suc zero) h e = cc
  op_type_known (suc (suc zero)) h e = cc
  op_type_known (suc (suc (suc zero))) h e = cc
  op_type_known (suc (suc (suc (suc t)))) h e = omega arith

  module _ (t la len lk lrandom ra rk rrandom : ℕ) (lt : t < 4) (has_local : 0 < la)
      (has_remote : 0 < ra) (lpos : 0 < lrandom) (rpos : 0 < rrandom)
      (lfits : la + 8 * lrandom ≤ u64_mod) (rfits : ra + 8 * rrandom ≤ u64_mod)
      (small : rk < u32_mod) where
    made-IsReady :
        IsReady
          (made t la len lk lrandom ra rk rrandom)
          rk
          len
          lk
          (made t la len lk lrandom ra rk rrandom)
    unfolding init_rbuf init_lbuf new valid
    made-IsReady =
        let (opcode, key, remote, sges) =
          started_parts (op_type t) la len lk ra rk (op_type_known t lt) small in
        record {
          same_type = refl;
          same_rbuf = refl;
          same_lbuf = refl;
          same_rrandom = refl;
          same_lrandom = refl;
          known = op_type_known t lt;
          is_valid = ground (arith, has_local, has_remote);
          has_rbuf = rpos;
          has_lbuf = lpos;
          rbuf_fits = rfits;
          lbuf_fits = lfits;
          opcode = opcode;
          key = key;
          remote = (0, rpos, omega (arith, remote));
          laddr = la;
          inside = (0, lpos, omega arith);
          sges = sges;
        }

    -- A request for one of the four operations, made for a local and a remote buffer that end below 2^64, with a key of
    -- 32 bits, can be refreshed any number of times. It is the operation of its type each time, with the
    -- keys it was made with, and its addresses are those of elements of the two buffers.
    pub refreshes-made :
        (n : ℕ)
        → (b : BenchOp) × (refreshes n (made t la len lk lrandom ra rk rrandom) ≡ some b)
          × IsReady (made t la len lk lrandom ra rk rrandom) rk len lk b
    refreshes-made n =
        refreshes-IsReady n (made t la len lk lrandom ra rk rrandom) rk len lk
          (made t la len lk lrandom ra rk rrandom) made-IsReady
