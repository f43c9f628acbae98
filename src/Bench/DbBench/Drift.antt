-- ===== src/Bench/DbBench/Drift.antt =====
-- What the client of benchs/db_bench/client.cc leaves in the counter of signaled requests.
use rlibv.Base.{
  ℕ, zero, suc, ◌+◌, ◌/◌, ◌%◌, ◌≤◌, ◌≡◌, refl, sym, ap, ◌∙◌, Bool, true, false, none, some, List,
  [], ◌∷◌, ◌==◌, length, set, leb, if◌then◌else◌, arith, u32_mod, bind_some, none≢some,
}
use Prim.Native.Nat.{bit_and}
use mathlib.Core.Option.{some_inj}
use rlibv.Base.Bits.{bit_and_zero}
use rlibv.Proto.{RegAttr}
use rlibv.Qps.Op.{
  Op, set_read, set_write, set_cas, set_fetch_add, set_flags, set_next, set_wrid, set_payload,
  set_rdma_rbuf, set_atomic_rbuf, execute_batch,
}
use rlibv.Qps.Op
use rlibv.Bench.FastRandom.{FastRandom, next}
use rlibv.Bench.BenchOp.{
  BenchOp, OpType, rdma_read, rdma_write, atomic_cas, atomic_faa, other, valid, element, new,
  refreshed, refresh, rdma_to, of_type, op_type, init_rbuf, init_lbuf, set_type,
}
use rlibv.Bench.Window.{db_factor, db_round}
use rlibv.Bench.Window.Balance.{or_loop-keeps, or_loop-counts}
use rlibv.Bench.Loop.{Client, Refused, Polls, wait_ok, counted}
use rlibv.Bench.OrBench.Balanced.{wait_ok-parts, posted_ok-parts}
use rlibv.Bench.DbBench.{flag_last, db_ops, refresh_all, db_post, db_rounds, post_batch}

-- two requests or more, of which the first has no flags
abbrev pub Quiet : List BenchOp → Type 0
Quiet [] = ⊥
Quiet (b ∷ []) = ⊥
Quiet (b ∷ (b' ∷ bs)) = b.op.send_flags ≡ 0

module _ (o : Op.Verbs) where
  refreshed-flags :
      (b : BenchOp) (t : OpType) (ra la : ℕ) (r : FastRandom)
      → (refreshed o b t ra la r).op.send_flags ≡ b.op.send_flags
  unfolding refreshed set_cas set_fetch_add
  refreshed-flags b rdma_read ra la r = refl
  refreshed-flags b rdma_write ra la r = refl
  refreshed-flags b atomic_cas ra la r = refl
  refreshed-flags b atomic_faa ra la r = refl
  refreshed-flags b other ra la r = refl

  refresh-flags : (b b' : BenchOp) → refresh o b ≡ some b' → b'.op.send_flags ≡ b.op.send_flags
  unfolding refresh
  refresh-flags b b' e = by_tests (valid b) (b.rbuf_random == 0) (b.lbuf_random == 0) e
    where
      drawn : BenchOp
      drawn =
          let (x, r₁) = next b.rand in
          let (y, r₂) = next r₁ in
          refreshed o b b.type (element b.rbuf_base (x % b.rbuf_random))
            (element b.lbuf_base (y % b.lbuf_random)) r₂

      same : drawn.op.send_flags ≡ b.op.send_flags
      same = refreshed-flags b b.type _ _ _

      by_tests :
          (is_valid no_rbuf no_lbuf : Bool)
          → (if is_valid
              then (if no_rbuf then none else if no_lbuf then none else some drawn)
              else some b)
            ≡ some b'
          → b'.op.send_flags ≡ b.op.send_flags
      by_tests false r l e = ap (λ (x : BenchOp). x.op.send_flags) (sym (some_inj.0 e))
      by_tests true true l e = absurd (none≢some e)
      by_tests true false true e = absurd (none≢some e)
      by_tests true false false e =
          ap (λ (x : BenchOp). x.op.send_flags) (sym (some_inj.0 e)) ∙ same

  flag_last-Quiet : (flags : ℕ) (bs : List BenchOp) → Quiet bs → Quiet (flag_last flags bs)
  unfolding flag_last
  flag_last-Quiet flags [] q = q
  flag_last-Quiet flags (b ∷ []) q = absurd q
  flag_last-Quiet flags (b ∷ (b' ∷ [])) q = q
  flag_last-Quiet flags (b ∷ (b' ∷ (b'' ∷ bs))) q = q

  refresh_all-Quiet : (bs bs' : List BenchOp) → Quiet bs → refresh_all o bs ≡ some bs' → Quiet bs'
  unfolding refresh_all
  refresh_all-Quiet [] bs' q e = absurd q
  refresh_all-Quiet (b ∷ []) bs' q e = absurd q
  refresh_all-Quiet (b ∷ (b' ∷ bs)) bs' q e =
      let (c, e₁, e₂) = bind_some (refresh o b) _ bs' e in
      let (cs, e₃, e₄) = bind_some (refresh_all o (b' ∷ bs)) _ bs' e₂ in
      let (c', e₅, e₆) = bind_some (refresh o b') _ cs e₃ in
      let (cs', e₇, e₈) = bind_some (refresh_all o bs) _ cs e₆ in
      let eq : c ∷ (c' ∷ cs') ≡ bs' = ap (λ l. c ∷ l) (some_inj.0 e₈) ∙ some_inj.0 e₄ in
      rw (sym eq) (refresh-flags b c e₁ ∙ q)

  -- a first request without flags counts nothing
  post_batch-parts :
      (refused : Refused) (polls : Polls) (bs : List BenchOp) (c c' : Client (List BenchOp))
      → Quiet bs
      → post_batch o refused polls c bs ≡ some c'
      → Quiet c'.requests × (c'.qp.out_signaled ≡ c.qp.out_signaled) × (c'.waits ≡ c.waits)
  unfolding execute_batch
  post_batch-parts refused polls [] c c' q e = absurd q
  post_batch-parts refused polls (b ∷ []) c c' q e = absurd q
  post_batch-parts refused polls (b ∷ (b' ∷ bs)) c c' q e =
      let ran = execute_batch o (refused c.posts) b.op c.qp in
      let none_set : bit_and b.op.send_flags o.signaled ≡ 0 =
        ap (λ n. bit_and n o.signaled) q ∙ bit_and_zero o.signaled in
      let same : ran.qp.out_signaled ≡ c.qp.out_signaled = ground (arith, none_set) in
      let (qp, requests, waits, _) = posted_ok-parts c c' (b ∷ (b' ∷ bs)) ran c.rand e in
      (rw requests q, ap (λ q'. q'.out_signaled) qp ∙ same, waits)

  db_post-parts :
      (refused : Refused) (polls : Polls) (i : ℕ) (signaled : Bool) (c c' : Client (List BenchOp))
      → Quiet c.requests
      → db_post o refused polls i signaled c ≡ some c'
      → Quiet c'.requests × (c'.qp.out_signaled ≡ c.qp.out_signaled) × (c'.waits ≡ c.waits)
  unfolding db_post
  db_post-parts refused polls i signaled c c' q e =
      let (ops, e₁, e₂) = bind_some (refresh_all o c.requests) _ c' e in
      post_batch-parts refused polls (flag_last (if signaled then o.signaled else 0) ops) c c'
        (flag_last-Quiet (if signaled then o.signaled else 0) ops
          (refresh_all-Quiet c.requests ops q e₁))
        e₂

  -- how the counter and the waits stand to those of `c₀`
  record Drifts (c₀ c : Client (List BenchOp)) : Type 0 where
    quiet : Quiet c.requests
    sum : (c.qp.out_signaled + c.waits) % u32_mod ≡ (c₀.qp.out_signaled + c₀.waits) % u32_mod

  waits-Drifts :
      (polls : Polls) (c₀ c c' : Client (List BenchOp))
      → Drifts c₀ c
      → wait_ok polls c ≡ some c'
      → Drifts c₀ c'
  waits-Drifts polls c₀ c c' d e =
      let (qp, requests, waits, _) = wait_ok-parts polls c c' e in
      record { quiet = rw requests d.quiet; sum = omega (arith, qp, waits, d.sum) }

  posts-Drifts :
      (refused : Refused) (polls : Polls) (c₀ : Client (List BenchOp)) (i : ℕ) (signaled : Bool)
      (c c' : Client (List BenchOp))
      → Drifts c₀ c
      → db_post o refused polls i signaled c ≡ some c'
      → Drifts c₀ c'
  posts-Drifts refused polls c₀ i signaled c c' d e =
      let (quiet, qp, waits) = db_post-parts refused polls i signaled c c' d.quiet e in
      record { quiet = quiet; sum = omega (arith, qp, waits, d.sum) }

  db_rounds-Drifts :
      (refused : Refused) (polls : Polls) (n max or_factor : ℕ) (c₀ c c' : Client (List BenchOp))
      → Drifts c₀ c
      → db_rounds o refused polls n max or_factor c ≡ some c'
      → Drifts c₀ c'
  unfolding db_rounds db_round
  db_rounds-Drifts refused polls zero max or_factor c₀ c c' d e =
      let eq : c ≡ c' = some_inj.0 e in rw (sym eq) d
  db_rounds-Drifts refused polls (suc n) max or_factor c₀ c c' d e =
      let (c₁, e₁, e₂) =
        bind_some (db_round (db_post o refused polls) (wait_ok polls) max or_factor c) _ c' e in
      let d₁ =
        or_loop-keeps (db_post o refused polls) (wait_ok polls) (Drifts c₀)
          (λ i signaled s s' j posted. posts-Drifts refused polls c₀ i signaled s s' j posted)
          (λ s s' j waited. waits-Drifts polls c₀ s s' j waited) db_factor (max / 2)
          (or_factor / db_factor) 0 0 c c₁ d e₁ in
      db_rounds-Drifts refused polls n max or_factor c₀ (counted or_factor c₁) c'
        (record { quiet = d₁.quiet; sum = d₁.sum }) e₂

  post_batch-waits :
      (refused : Refused) (polls : Polls) (bs : List BenchOp) (c c' : Client (List BenchOp))
      → post_batch o refused polls c bs ≡ some c'
      → c'.waits ≡ c.waits
  post_batch-waits refused polls [] c c' e = absurd (none≢some e)
  post_batch-waits refused polls (b ∷ bs) c c' e = (posted_ok-parts c c' (b ∷ bs) _ c.rand e).2

  db_post-waits :
      (refused : Refused) (polls : Polls) (i : ℕ) (signaled : Bool) (c c' : Client (List BenchOp))
      → db_post o refused polls i signaled c ≡ some c'
      → c'.waits ≡ c.waits
  unfolding db_post
  db_post-waits refused polls i signaled c c' e =
      let (ops, _, e₂) = bind_some (refresh_all o c.requests) _ c' e in
      post_batch-waits refused polls _ c c' e₂

  db_rounds-waits :
      (refused : Refused) (polls : Polls) (n max or_factor : ℕ) (c c' : Client (List BenchOp))
      → db_rounds o refused polls n max or_factor c ≡ some c'
      → c.waits + n ≤ c'.waits
  unfolding db_rounds db_round
  db_rounds-waits refused polls zero max or_factor c c' e =
      omega (arith, ap (λ (x : Client (List BenchOp)). x.waits) (some_inj.0 e))
  db_rounds-waits refused polls (suc n) max or_factor c c' e =
      let (c₁, e₁, e₂) =
        bind_some (db_round (db_post o refused polls) (wait_ok polls) max or_factor c) _ c' e in
      let once =
        or_loop-counts (db_post o refused polls) (wait_ok polls)
          (λ (x : Client (List BenchOp)). x.waits) (db_post-waits refused polls)
          (λ s s' w. (wait_ok-parts polls s s' w).2) db_factor (max / 2) (or_factor / db_factor) 0 0
          c c₁ e₁ in
      omega
        (arith, once, db_rounds-waits refused polls n max or_factor (counted or_factor c₁) c' e₂)

  set_payload-flags :
      (b : Op) (addr len key index : ℕ)
      → (set_payload b addr len key index).1.send_flags ≡ b.send_flags
  unfolding set_payload
  set_payload-flags b addr len key index = by_test (leb (length b.sges) index)
    where
      by_test :
          (past : Bool)
          → let put : Bool × Op = if past then (false, b) else (
            true,
            record b { sges = set b.sges index (record { addr = addr; len = len; lkey = key }) },
          ) in
            put.1.send_flags ≡ b.send_flags
      by_test true = refl
      by_test false = refl

  rdma_to-flags : (k : OpType) (b : Op) (ra rk : ℕ) → (rdma_to b k ra rk).send_flags ≡ b.send_flags
  unfolding set_rdma_rbuf set_atomic_rbuf
  rdma_to-flags rdma_read b ra rk = refl
  rdma_to-flags rdma_write b ra rk = refl
  rdma_to-flags atomic_cas b ra rk = refl
  rdma_to-flags atomic_faa b ra rk = refl
  rdma_to-flags other b ra rk = refl

  of_type-flags : (k : OpType) (b : Op) → (of_type o b k).send_flags ≡ b.send_flags
  unfolding set_read set_write set_cas set_fetch_add
  of_type-flags rdma_read b = refl
  of_type-flags rdma_write b = refl
  of_type-flags atomic_cas b = refl
  of_type-flags atomic_faa b = refl
  of_type-flags other b = refl

  made-Quiet : (t : ℕ) (mine remote : RegAttr) → Quiet (db_ops o t mine remote db_factor 0)
  unfolding db_ops init_rbuf init_lbuf set_type new set_next set_wrid set_payload set_read Op.new
  made-Quiet t mine remote =
      rdma_to-flags (op_type t) _ remote.buf remote.key
      ∙ set_payload-flags (of_type o (new o 1 0).op (op_type t)) mine.buf 8 mine.key 0
      ∙ of_type-flags (op_type t) (new o 1 0).op

  -- The client has its ten requests, of any type, as it makes them. However many rounds it makes to their end, it waits
  -- at least once in each, and each wait takes one from the counter of signaled requests that are out, in
  -- 32 bits, but no batch adds to it: only the flags of a batch's first request are looked at.
  pub db_rounds-drift :
      (refused : Refused) (polls : Polls) (t n max or_factor : ℕ) (mine remote : RegAttr)
      (c c' : Client (List BenchOp))
      → c.requests ≡ db_ops o t mine remote db_factor 0
      → db_rounds o refused polls n max or_factor c ≡ some c'
      → ((c'.qp.out_signaled + c'.waits) % u32_mod ≡ (c.qp.out_signaled + c.waits) % u32_mod)
        × (c.waits + n ≤ c'.waits)
  db_rounds-drift refused polls t n max or_factor mine remote c c' made e = (
    (db_rounds-Drifts refused polls n max or_factor c c c'
        (record { quiet = rw made (made-Quiet t mine remote); sum = refl }) e).sum,
    db_rounds-waits refused polls n max or_factor c c' e,
  )
