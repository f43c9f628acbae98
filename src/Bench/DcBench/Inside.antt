-- ===== src/Bench/DcBench/Inside.antt =====
-- Where the reads of benchs/dc_bench/client.cc go.
use rlibv.Base.{
  ℕ, zero, suc, ◌+◌, ◌*◌, ◌/◌, ◌%◌, ◌≤◌, ◌<◌, ◌≡◌, refl, sym, ap, ◌∙◌, Option, none, some, List, [],
  ◌∷◌, length, get_elem?, arith, u32_mod, u64_mod, bind_some, none≢some, if◌then◌else◌, ◌>>=◌, ◌==◌,
  ◌^◌, ltb, true, false, Bool,
}
use native.Mathlib.Nat.{mod-lt, div-mul-le_self, mul-le-mul_right}
use mathlib.Core.Option.{some_inj}
use rlibv.Proto.{RegAttr}
use rlibv.Result.{is_ok}
use rlibv.Verbs.{Verbs}
use rlibv.Qps.Rc.{Poll}
use rlibv.Qps.Dc.{Dc, ExpSendWr, post_send, wait_one_comp}
use rlibv.Qps.Dc
use rlibv.Bench.FastRandom.{FastRandom, next}
use rlibv.Bench.DcBench.{
  DcFlags, Remotes, DcState, dc_request, dc_post, dc_round, dc_rounds, mod_of,
}

-- the read at a random place, of a region of `m` bytes in parts of `p`
part_inside : (x m p : ℕ) → 0 < m / p → x % (m / p) * p + p ≤ m
part_inside x m p pos =
    let before : (x % (m / p) + 1) * p ≤ m / p * p =
      mul-le-mul_right p (omega (arith, mod-lt x pos)) in
    let split : (x % (m / p) + 1) * p ≡ x % (m / p) * p + p = grind arith in
    omega (arith, before, split, div-mul-le_self m p)

module _ (v : Verbs) where
  -- The request is a read, inside of one of the regions, with this region's key.
  pub record Reads (exp_read : ℕ) (r : Remotes v) (wr : ExpSendWr v) : Type 0 where
    pub opcode : wr.exp_opcode ≡ exp_read
    pub machine : ℕ
    pub reg : RegAttr
    pub offset : ℕ
    pub known : get_elem? r.regs machine ≡ some reg
    pub key : wr.rkey ≡ reg.key
    pub addr : wr.remote_addr ≡ reg.buf + offset
    pub inside : offset + wr.sge_length ≤ reg.sz

  abbrev pub AllRead : ℕ → Remotes v → List (ExpSendWr v) → Type 0
  AllRead exp_read r [] = Unit {0}
  AllRead exp_read r (wr ∷ wrs) = Reads exp_read r wr × AllRead exp_read r wrs

  -- Every region has `mem_sz` bytes or more, and ends at 2^64 or before.
  abbrev pub Fit : DcFlags → Remotes v → Type 0
  Fit f r =
      (i : ℕ) (reg : RegAttr)
      → get_elem? r.regs i ≡ some reg
      → (f.mem_sz ≤ reg.sz) × (reg.buf + reg.sz ≤ u64_mod)

  module _ (exp_read exp_signaled : ℕ) (refused : ℕ → Option (List ℕ)) (polls : ℕ → List Poll)
      (f : DcFlags) (small : f.payload_sz < u32_mod) (few : f.mem_sz / f.payload_sz < 2 ^ 31) where
    mod_of_small : mod_of f ≡ f.mem_sz / f.payload_sz
    unfolding mod_of
    mod_of_small =
        let low : f.mem_sz / f.payload_sz % u32_mod ≡ f.mem_sz / f.payload_sz =
          omega (arith, few) in
        let test : ltb (f.mem_sz / f.payload_sz) (2 ^ 31) ≡ true = ground (arith, few) in
        rw (low, test, mod_of) refl

    request-Reads :
        (r : Remotes v) (mine : RegAttr) (x : ℕ) (req : Dc.ReqDesc v × Dc.ReqPayload)
        (why : Option (List ℕ))
        → Fit f r
        → 0 < f.mem_sz / f.payload_sz
        → dc_request v exp_read exp_signaled f r mine x ≡ some req
        → Reads exp_read r (post_send v why req.0 req.1).1
    unfolding dc_request post_send
    request-Reads r mine x req why fit pos e =
        let idx = x % length r.nodes in
        let (handler, _, e₁) = bind_some (get_elem? r.handlers idx) _ req e in
        let (ah, _, e₂) = bind_some handler _ req e₁ in
        let (node, _, e₃) = bind_some (get_elem? r.nodes idx) _ req e₂ in
        let (reg, there, e₄) = bind_some (get_elem? r.regs idx) _ req e₃ in
        let eq = some_inj.0 e₄ in
        let few_parts = mod_of_small in
        let part : x % mod_of f * f.payload_sz + f.payload_sz ≤ f.mem_sz =
          rw few_parts (part_inside x f.mem_sz f.payload_sz pos) in
        let room = fit idx reg there in
        let len : f.payload_sz % u32_mod ≡ f.payload_sz = omega (arith, small) in
        record {
          opcode = ap (λ (q : Dc.ReqDesc v × Dc.ReqPayload). q.0.op) (sym eq);
          machine = idx;
          reg = reg;
          offset = x % mod_of f * f.payload_sz;
          known = there;
          key = ap (λ (q : Dc.ReqDesc v × Dc.ReqPayload). q.1.rkey) (sym eq);
          addr =
              ap (λ (q : Dc.ReqDesc v × Dc.ReqPayload). q.1.raddr) (sym eq)
              ∙ omega (arith, part, room.0, room.1);
          inside =
              omega
                (arith, part, len, room.0, ap (λ (q : Dc.ReqDesc v × Dc.ReqPayload). q.0.len) eq);
        }

    post-AllRead :
        (r : Remotes v) (at : ℕ) (dc : Dc v) (rand : FastRandom)
        (req : Dc.ReqDesc v × Dc.ReqPayload) (s s' : DcState v)
        → Reads exp_read r (post_send v (refused (length s.sent)) req.0 req.1).1
        → AllRead exp_read r s.sent
        → dc_post v exp_read exp_signaled refused polls f at dc rand req s ≡ some s'
        → AllRead exp_read r s'.sent
    unfolding dc_post
    post-AllRead r at dc rand req s s' here all e =
        by_tests (is_ok (post_send v (refused (length s.sent)) req.0 req.1).0)
          (is_ok (wait_one_comp v dc (polls (length s.sent))).0) _ refl e
      where
        wr : ExpSendWr v
        wr = (post_send v (refused (length s.sent)) req.0 req.1).1

        by_tests :
            (sent_ok got_ok : Bool) (behind : DcState v)
            → behind.sent ≡ wr ∷ s.sent
            → (if sent_ok then (if got_ok then some behind else none) else none) ≡ some s'
            → AllRead exp_read r s'.sent
        by_tests true true behind same e =
            let eq : s'.sent ≡ wr ∷ s.sent =
              ap (λ (t : DcState v). t.sent) (sym (some_inj.0 e)) ∙ same in
            rw eq (here, all)
        by_tests true false behind same e = absurd (none≢some e)
        by_tests false got behind same e = absurd (none≢some e)

    round-AllRead :
        (r : Remotes v) (mine : RegAttr) (s s' : DcState v)
        → Fit f r
        → AllRead exp_read r s.sent
        → dc_round v exp_read exp_signaled refused polls f r mine s ≡ some s'
        → AllRead exp_read r s'.sent
    unfolding dc_round
    round-AllRead r mine s s' fit all e = by_tests (f.payload_sz == 0) (mod_of f == 0) refl e
      where
        at : ℕ
        at = (s.dc_idx + 1) % f.dc_num

        drawn : ℕ × FastRandom
        drawn = next s.rand

        rest : Option (DcState v)
        rest = get_elem? s.dcs at >>= λ dc.
            dc_request v exp_read exp_signaled f r mine drawn.0 >>= λ req.
            dc_post v exp_read exp_signaled refused polls f at dc drawn.1 req s

        by_tests :
            (no_payload no_part : Bool)
            → (mod_of f == 0) ≡ no_part
            → (if no_payload then none else (if no_part then none else rest)) ≡ some s'
            → AllRead exp_read r s'.sent
        by_tests true b h e = absurd (none≢some e)
        by_tests false true h e = absurd (none≢some e)
        by_tests false false h e =
            let (dc, _, e₁) = bind_some (get_elem? s.dcs at) _ s' e in
            let (req, made, e₂) =
              bind_some (dc_request v exp_read exp_signaled f r mine drawn.0) _ s' e₁ in
            post-AllRead r at dc drawn.1 req s s'
              (request-Reads r mine drawn.0 req (refused (length s.sent)) fit
                (ground (arith, h, mod_of_small)) made)
              all e₂

    -- The parts that are read have fewer than 2^32 bytes, and there are fewer than 2^31 of them. Every region has the
    -- bytes that the flags give, or more, and ends at 2^64 or before. Whatever is drawn, in any number of
    -- rounds that the worker makes to their end: each request that it posts is a read, inside of one of the
    -- regions, with this region's key.
    pub dc_rounds-AllRead :
        (n : ℕ) (r : Remotes v) (mine : RegAttr) (s s' : DcState v)
        → Fit f r
        → AllRead exp_read r s.sent
        → dc_rounds v exp_read exp_signaled refused polls f n r mine s ≡ some s'
        → AllRead exp_read r s'.sent
    unfolding dc_rounds
    dc_rounds-AllRead zero r mine s s' fit all e = let eq : s ≡ s' = some_inj.0 e in rw (sym eq) all
    dc_rounds-AllRead (suc n) r mine s s' fit all e =
        let (s₁, e₁, e₂) =
          bind_some (dc_round v exp_read exp_signaled refused polls f r mine s) _ s' e in
        dc_rounds-AllRead n r mine s₁ s' fit (round-AllRead r mine s s₁ fit all e₁) e₂
