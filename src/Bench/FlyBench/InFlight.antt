-- ===== src/Bench/FlyBench/InFlight.antt =====
-- How many requests of benchs/fly_bench/client.cc are in flight.
use rlibv.Base.{
  ℕ, zero, suc, ◌+◌, ◌%◌, ◌≤◌, ◌<◌, ◌≡◌, refl, sym, ap, true, some, arith, u64_mod, bind_some,
  Bool-cases, inl, inr,
}
use native.Mathlib.Nat.{mod-lt}
use mathlib.Core.Option.{some_inj}
use rlibv.Result.{is_ok}
use rlibv.Qps.Rc.{wait_one_comp}
use rlibv.Qps.Op.{Op}
use rlibv.Qps.Op
use rlibv.Bench.Reporter.{Statics, increment}
use rlibv.Bench.Loop.{Client, Refused, Polls, counted}
use rlibv.Bench.OrBench.{or_post}
use rlibv.Bench.OrBench.Balanced.{posted_ok-parts}
use rlibv.Bench.FlyBench.{
  Fly, minus, try_rounds, fly_posts, fly_try, fly_tries, fly_round, fly_rounds, counted_flying,
}

module _ (o : Op.Verbs) (refused : Refused) (polls : Polls) where
  fly_posts-counter :
      (left remote_buf rkey : ℕ) (c c' : Client Op)
      → c.statics.counter < u64_mod
      → fly_posts o refused polls left remote_buf rkey c ≡ some c'
      → c'.statics.counter ≡ (c.statics.counter + left) % u64_mod
  unfolding fly_posts or_post increment
  fly_posts-counter zero remote_buf rkey c c' small e =
      omega (arith, ap (λ (x : Client Op). x.statics.counter) (some_inj.0 e))
  fly_posts-counter (suc left) remote_buf rkey c c' small e =
      let (c₁, e₁, e₂) = bind_some (or_post o refused polls remote_buf rkey 0 true c) _ c' e in
      let same : c₁.statics.counter ≡ c.statics.counter =
        ap (λ (t : Statics). t.counter) (posted_ok-parts c c₁ _ _ _ e₁).3 in
      omega (
        arith,
        same,
        fly_posts-counter left remote_buf rkey (counted 1 c₁) c'
            (mod-lt (c₁.statics.counter + 1) (omega arith)) e₂,
      )

  -- a wait receives one or none
  fly_try-recv :
      (s : Fly)
      → s.recv_cnt < u64_mod
      → (k : ℕ) × (k ≤ 1) × ((fly_try o refused polls s).recv_cnt ≡ (s.recv_cnt + k) % u64_mod)
  unfolding fly_try
  fly_try-recv s small =
      elim (Bool-cases (is_ok (wait_one_comp s.client.qp (polls s.client.waits)).0)) [
        | inl good ↦ (1, omega arith, rw good refl)
        | inr bad ↦ (0, omega arith, rw bad (omega arith))
      ]

  fly_tries-recv :
      (n : ℕ) (s : Fly)
      → s.recv_cnt < u64_mod
      → (k : ℕ) × (k ≤ n) × ((fly_tries o refused polls n s).recv_cnt ≡ (s.recv_cnt + k) % u64_mod)
  unfolding fly_tries
  fly_tries-recv zero s small = (0, omega arith, omega arith)
  fly_tries-recv (suc n) s small =
      let (j, one, e) = fly_try-recv s small in
      let (k, le, e') = fly_tries-recv n (fly_try o refused polls s) (omega (arith, e)) in
      (j + k, omega (arith, one, le), omega (arith, e, e'))

  fly_tries-statics :
      (n : ℕ) (s : Fly) → (fly_tries o refused polls n s).client.statics ≡ s.client.statics
  unfolding fly_tries fly_try
  fly_tries-statics zero s = refl
  fly_tries-statics (suc n) s = fly_tries-statics n (fly_try o refused polls s)

  -- The counters are of 64 bits, `flying_cnt` is what is made and not received, and at most `para`.
  pub record InWindow (para : ℕ) (s : Fly) : Type 0 where
    pub made_small : s.client.statics.counter < u64_mod
    pub recv_small : s.recv_cnt < u64_mod
    pub flying : s.flying_cnt ≡ minus s.client.statics.counter s.recv_cnt
    pub within : s.flying_cnt ≤ para

  fly_round-InWindow :
      (remote_buf rkey para : ℕ) (s s' : Fly)
      → try_rounds ≤ para
      → para < u64_mod
      → InWindow para s
      → fly_round o refused polls remote_buf rkey para s ≡ some s'
      → InWindow para s'
  unfolding fly_round
  fly_round-InWindow remote_buf rkey para s s' many small w e =
      let (c, e₁, e₂) =
        bind_some (fly_posts o refused polls (minus para s.flying_cnt) remote_buf rkey s.client) _
          s' e in
      let made =
        fly_posts-counter (minus para s.flying_cnt) remote_buf rkey s.client c w.made_small e₁ in
      let (k, le, recv) = fly_tries-recv try_rounds (record s { client = c }) w.recv_small in
      let same =
        ap (λ (t : Statics). t.counter) (fly_tries-statics try_rounds (record s { client = c })) in
      let behind : InWindow para (
          counted_flying o refused polls
            (fly_tries o refused polls try_rounds (record s { client = c }))) =
        record {
          made_small = omega (arith, made, same);
          recv_small = omega (arith, recv);
          flying = refl;
          within = omega (arith, made, same, recv, le, w.flying, w.within);
        } in
      rw (sym (some_inj.0 e₂)) behind

  -- The window is of 5 requests or more. Whatever the polls bring, and however many rounds are made to their
  -- end: as many requests as `flying_cnt` says are made and not received, and never more than the window.
  pub fly_rounds-InWindow :
      (n remote_buf rkey para : ℕ) (s s' : Fly)
      → try_rounds ≤ para
      → para < u64_mod
      → InWindow para s
      → fly_rounds o refused polls n remote_buf rkey para s ≡ some s'
      → InWindow para s'
  unfolding fly_rounds
  fly_rounds-InWindow zero remote_buf rkey para s s' many small w e =
      let eq : s ≡ s' = some_inj.0 e in rw (sym eq) w
  fly_rounds-InWindow (suc n) remote_buf rkey para s s' many small w e =
      let (s₁, e₁, e₂) = bind_some (fly_round o refused polls remote_buf rkey para s) _ s' e in
      fly_rounds-InWindow n remote_buf rkey para s₁ s' many small
        (fly_round-InWindow remote_buf rkey para s s₁ many small w e₁) e₂
