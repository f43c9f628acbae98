-- ===== src/Qps/Op/Execute.antt =====
-- What a request that is built with core/qps/op.hh is when the device has it.
use rlibv.Base.{ℕ, ◌^◌, ◌<◌, ◌≡◌, refl, true, none, arith, u32_mod}
use rlibv.Qps.Rc.{Rc, user_wr}
use rlibv.Qps.Rc.Watermark.{user_wr-encode_my_wr}
use rlibv.Qps.Op.{
  Verbs, Op, rdma_rkey, set_op, set_rdma_rbuf, set_imm, set_atomic_rbuf, set_atomic, set_read,
  set_cas, execute_batch, execute,
}

module _ (v : Verbs) where
  -- The address and the 32-bit key of a read survive whatever the request held before, and the
  -- completion of the executed request gives its id below 2^48 back.
  execute-set_read :
      (o : Op) (q : Rc) (ra rk flags id : ℕ)
      → rk < u32_mod
      → id < 2 ^ 48
      → (let done = execute v none (set_read v (set_rdma_rbuf o ra rk)) q flags id in
          (done.request.opcode ≡ v.rdma_read)
          × (done.request.remote_addr ≡ ra)
          × (rdma_rkey done.request ≡ rk)
          × (user_wr (record { wr_id = done.request.wr_id; success = true }) ≡ id))
  unfolding execute execute_batch set_read set_op set_rdma_rbuf
  execute-set_read o q ra rk flags id small h =
      (refl, refl, omega arith, (user_wr-encode_my_wr q id 1 true h).0)

  -- A compare-and-swap is the same request whether it is built by `set_atomic_rbuf` and `set_cas`, in
  -- either order, or by `set_atomic` and `set_op`.
  set_cas-set_atomic_rbuf :
      (o : Op) (ra rk comp swap : ℕ)
      → (set_cas v (set_atomic_rbuf o ra rk) comp swap
          ≡ set_atomic_rbuf (set_cas v o comp swap) ra rk)
        × (set_cas v (set_atomic_rbuf o ra rk) comp swap
            ≡ set_op (set_atomic o ra comp swap rk) v.cmp_and_swp)
  unfolding set_cas set_atomic_rbuf set_atomic set_op set_imm
  set_cas-set_atomic_rbuf o ra rk comp swap = (refl, refl)
