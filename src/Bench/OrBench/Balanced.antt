-- ===== src/Bench/OrBench/Balanced.antt =====
-- The client of benchs/or_bench/client.cc waits for each request that it signals.
use rlibv.Base.{
  ℕ, zero, suc, ◌+◌, ◌-◌, ◌*◌, ◌/◌, ◌%◌, ◌<◌, ◌≡◌, ◌≢◌, refl, sym, ap, ◌∙◌, Bool, true, false,
  Option, none, some, List, [], ◌∷◌, if◌then◌else◌, arith, u32_mod, u64_mod, bind_some, none≢some,
  false≢true, Bool-cases, inl, inr,
}
use Prim.Native.Nat.{bit_and}
use native.Mathlib.Nat.{mod-lt}
use mathlib.Core.Option.{some_inj}
use rlibv.Base.Bits.{bit_and_zero}
use rlibv.Result.{is_ok}
use rlibv.Qps.Rc.{Rc, Poll, nothing, failed, completed, wait_one_comp, poll_send_comp, encode_my_wr}
use rlibv.Qps.Op.{Op, Executed, set_rdma_rbuf, execute, execute_batch}
use rlibv.Qps.Op
use rlibv.Bench.FastRandom.{FastRandom, next}
use rlibv.Bench.BenchOp.{element}
use rlibv.Bench.Reporter.{Statics, increment}
use rlibv.Bench.Window.{or_round}
use rlibv.Bench.Window.Balance.{more, or_loop-keeps, or_loop-balanced}
use rlibv.Bench.Loop.{Client, Refused, Polls, wait_ok, posted_ok, counted}
use rlibv.Bench.OrBench.{or_post, or_rounds}

-- the signaled requests that are out, in 32 bits
abbrev pub out : {R : Type 0} → Client R → ℕ
out c = c.qp.out_signaled % u32_mod

-- A wait with a completion is one less.
wait_one_comp-less :
    (ps : List Poll) (q : Rc)
    → is_ok (wait_one_comp q ps).0 ≡ true
    → (wait_one_comp q ps).1.out_signaled ≡ (q.out_signaled + (u32_mod - 1)) % u32_mod
unfolding wait_one_comp poll_send_comp
wait_one_comp-less [] q ok = absurd (false≢true ok)
wait_one_comp-less (nothing ∷ ps) q ok = wait_one_comp-less ps q ok
wait_one_comp-less (failed wc ∷ ps) q ok = absurd (false≢true ok)
wait_one_comp-less (completed wc ∷ ps) q ok = refl

pub wait_ok-parts :
    {R : Type 0} (polls : Polls) (c c' : Client R)
    → wait_ok polls c ≡ some c'
    → (c'.qp.out_signaled ≡ (c.qp.out_signaled + (u32_mod - 1)) % u32_mod)
      × (c'.requests ≡ c.requests)
      × (c'.waits ≡ c.waits + 1)
      × (c'.statics ≡ c.statics)
unfolding wait_ok
wait_ok-parts {R} polls c c' e = elim (Bool-cases (is_ok (wait_one_comp c.qp (polls c.waits)).0)) [
  | inl good ↦
      let behind : Client R = record c {
        qp = (wait_one_comp c.qp (polls c.waits)).1;
        waits = c.waits + 1;
      } in
      let same : wait_ok polls c ≡ some behind = rw (good, wait_ok) refl in
      let eq : behind ≡ c' = some_inj.0 (sym same ∙ e) in
      (
        ap (λ (x : Client R). x.qp.out_signaled) (sym eq)
            ∙ wait_one_comp-less (polls c.waits) c.qp good,
        ap (λ (x : Client R). x.requests) (sym eq),
        ap (λ (x : Client R). x.waits) (sym eq),
        ap (λ (x : Client R). x.statics) (sym eq),
      )
  | inr bad ↦
      let failed : wait_ok polls c ≡ none = rw (bad, wait_ok) refl in
      absurd (none≢some (sym failed ∙ e))
]

pub posted_ok-parts :
    {R : Type 0} (c c' : Client R) (requests : R) (x : Executed) (rand : FastRandom)
    → posted_ok c requests x rand ≡ some c'
    → (c'.qp ≡ x.qp) × (c'.requests ≡ requests) × (c'.waits ≡ c.waits) × (c'.statics ≡ c.statics)
unfolding posted_ok
posted_ok-parts {R} c c' requests x rand e = elim (Bool-cases (is_ok x.result)) [
  | inl good ↦
      let behind : Client R = record c {
        requests = requests;
        qp = x.qp;
        rand = rand;
        posts = c.posts + 1;
      } in
      let same : posted_ok c requests x rand ≡ some behind = rw (good, posted_ok) refl in
      let eq : behind ≡ c' = some_inj.0 (sym same ∙ e) in
      (
        ap (λ (y : Client R). y.qp) (sym eq),
        ap (λ (y : Client R). y.requests) (sym eq),
        ap (λ (y : Client R). y.waits) (sym eq),
        ap (λ (y : Client R). y.statics) (sym eq),
      )
  | inr bad ↦
      let failed : posted_ok c requests x rand ≡ none = rw (bad, posted_ok) refl in
      absurd (none≢some (sym failed ∙ e))
]

module _ (o : Op.Verbs) (flag : bit_and o.signaled o.signaled ≢ 0) where
  execute-out :
      (refused : Option (List ℕ)) (op : Op) (q : Rc) (signaled : Bool)
      → (execute o refused op q (if signaled then o.signaled else 0) 0).qp.out_signaled
        ≡ (if signaled then (q.out_signaled + 1) % u32_mod else q.out_signaled)
  unfolding execute execute_batch encode_my_wr
  execute-out refused op q true = ground (arith, flag)
  execute-out refused op q false = ground (arith, bit_and_zero o.signaled)

  or_post-out :
      (refused : Refused) (polls : Polls) (remote_buf rkey i : ℕ) (signaled : Bool)
      (c c' : Client Op)
      → or_post o refused polls remote_buf rkey i signaled c ≡ some c'
      → out c' ≡ (if signaled then more (out c) else out c)
  unfolding or_post
  or_post-out refused polls remote_buf rkey i signaled c c' e =
      let (x, rand) = next c.rand in
      let op = set_rdma_rbuf c.requests (element remote_buf (x % 10000)) rkey in
      let ran = execute o (refused c.posts) op c.qp (if signaled then o.signaled else 0) 0 in
      let (qp, _, _, _) = posted_ok-parts c c' ran.request ran rand e in
      ap (λ (q : Rc). q.out_signaled % u32_mod) qp
      ∙ ap (λ (n : ℕ). n % u32_mod) (execute-out (refused c.posts) op c.qp signaled)
      ∙ by_flag signaled
    where
      by_flag :
          (b : Bool)
          → (if b then (c.qp.out_signaled + 1) % u32_mod else c.qp.out_signaled) % u32_mod
            ≡ (if b then more (out c) else out c)
      by_flag true = omega arith
      by_flag false = refl

  or_round-out :
      (refused : Refused) (polls : Polls) (remote_buf rkey max or_factor : ℕ) (c c' : Client Op)
      → 0 < or_factor
      → or_round (or_post o refused polls remote_buf rkey) (wait_ok polls) max or_factor c ≡ some c'
      → out c' ≡ out c
  unfolding or_round
  or_round-out refused polls remote_buf rkey max zero c c' pos e = absurd (omega arith)
  or_round-out refused polls remote_buf rkey max (suc left) c c' pos e =
      or_loop-balanced (or_post o refused polls remote_buf rkey) (wait_ok polls) out
        (λ s. mod-lt s.qp.out_signaled (omega arith)) (or_post-out refused polls remote_buf rkey)
        (λ s s' w. ap (λ (n : ℕ). n % u32_mod) (wait_ok-parts polls s s' w).0 ∙ omega arith) 1
        (max / 2) left c c' (omega arith) e

  or_round-statics :
      (refused : Refused) (polls : Polls) (remote_buf rkey max or_factor : ℕ) (c c' : Client Op)
      → or_round (or_post o refused polls remote_buf rkey) (wait_ok polls) max or_factor c ≡ some c'
      → c'.statics ≡ c.statics
  unfolding or_round or_post
  or_round-statics refused polls remote_buf rkey max or_factor c c' e =
      or_loop-keeps (or_post o refused polls remote_buf rkey) (wait_ok polls)
        (λ (x : Client Op). x.statics ≡ c.statics)
        (λ i signaled s s' j posted. (posted_ok-parts s s' _ _ _ posted).3 ∙ j)
        (λ s s' j waited. (wait_ok-parts polls s s' waited).3 ∙ j) 1 (max / 2) or_factor 0 0 c c'
        refl e

  -- The flag for signaled requests is not 0. However many rounds the client makes to their end, of at least one
  -- request each, it has waited for every request that it signaled: as many are out as before, in 32
  -- bits. Its counter has the requests of all rounds, in 64 bits.
  pub or_rounds-balanced :
      (refused : Refused) (polls : Polls) (n remote_buf rkey max or_factor : ℕ) (c c' : Client Op)
      → 0 < or_factor
      → c.statics.counter < u64_mod
      → or_rounds o refused polls n remote_buf rkey max or_factor c ≡ some c'
      → (c'.qp.out_signaled % u32_mod ≡ c.qp.out_signaled % u32_mod)
        × (c'.statics.counter ≡ (c.statics.counter + n * or_factor) % u64_mod)
  unfolding or_rounds increment
  or_rounds-balanced refused polls zero remote_buf rkey max or_factor c c' pos small e =
      let eq : c ≡ c' = some_inj.0 e in
      (
        ap (λ (x : Client Op). out x) (sym eq),
        ap (λ (x : Client Op). x.statics.counter) (sym eq) ∙ omega arith,
      )
  or_rounds-balanced refused polls (suc n) remote_buf rkey max or_factor c c' pos small e =
      let (c₁, e₁, e₂) =
        bind_some
          (or_round (or_post o refused polls remote_buf rkey) (wait_ok polls) max or_factor c) _ c'
          e in
      let (same, counter) =
        or_rounds-balanced refused polls n remote_buf rkey max or_factor (counted or_factor c₁) c'
          pos (mod-lt (c₁.statics.counter + or_factor) (omega arith)) e₂ in
      (
        same ∙ or_round-out refused polls remote_buf rkey max or_factor c c₁ pos e₁,
        counter
            ∙ ap (λ (t : Statics). ((t.counter + or_factor) % u64_mod + n * or_factor) % u64_mod)
                (or_round-statics refused polls remote_buf rkey max or_factor c c₁ e₁)
            ∙ sums c.statics.counter,
      )
    where
      sums :
          (x : ℕ)
          → ((x + or_factor) % u64_mod + n * or_factor) % u64_mod
            ≡ (x + suc n * or_factor) % u64_mod
      sums x = grind arith
