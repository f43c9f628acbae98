-- ===== src/Bench/FlyBench/Drain.antt =====
-- The last loop of benchs/fly_bench/client.cc ends where the waits succeed.
use rlibv.Base.{
  ℕ, zero, suc, ◌+◌, ◌%◌, ◌≤◌, ◌<◌, ◌≡◌, refl, ◌∙◌, true, false, some, arith, u64_mod, ltb,
  Bool-cases, inl, inr,
}
use rlibv.Result.{is_ok}
use rlibv.Qps.Rc.{Rc, wait_one_comp}
use rlibv.Qps.Op
use rlibv.Bench.Loop.{Refused, Polls}
use rlibv.Bench.FlyBench.{Fly, fly_try, fly_drain}

module _ (o : Op.Verbs) (refused : Refused) (polls : Polls)
    (succeed : (q : Rc) (n : ℕ) → is_ok (wait_one_comp q (polls n)).0 ≡ true) where
  fly_try-succeeds :
      (s : Fly)
      → ((fly_try o refused polls s).recv_cnt ≡ (s.recv_cnt + 1) % u64_mod)
        × ((fly_try o refused polls s).client.statics ≡ s.client.statics)
  unfolding fly_try
  fly_try-succeeds s = (rw (succeed s.client.qp s.client.waits) refl, refl)

  -- Every wait brings a completion. Then as many waits as requests are still out are enough: behind them all requests
  -- that were made are received.
  pub fly_drain-succeeds :
      (fuel : ℕ) (s : Fly)
      → s.client.statics.counter < u64_mod
      → s.recv_cnt ≤ s.client.statics.counter
      → s.client.statics.counter ≤ s.recv_cnt + fuel
      → (s' : Fly) × (fly_drain o refused polls fuel s ≡ some s')
        × (s'.recv_cnt ≡ s.client.statics.counter)
  unfolding fly_drain
  fly_drain-succeeds zero s small le enough =
      let ends : ltb s.recv_cnt s.client.statics.counter ≡ false = ground (arith, enough) in
      (s, rw (ends, fly_drain) refl, omega (arith, le, enough))
  fly_drain-succeeds (suc fuel) s small le enough =
      elim (Bool-cases (ltb s.recv_cnt s.client.statics.counter)) [
        | inl goes ↦
            let (recv, same) = fly_try-succeeds s in
            let lt : s.recv_cnt < s.client.statics.counter = ground (arith, goes) in
            let made : (fly_try o refused polls s).client.statics.counter
                ≡ s.client.statics.counter =
              rw same refl in
            let (s', e, all) =
              fly_drain-succeeds fuel (fly_try o refused polls s) (omega (arith, made, small))
                (omega (arith, made, recv, lt, small))
                (omega (arith, made, recv, lt, small, enough)) in
            (s', rw (goes, fly_drain) e, all ∙ made)
        | inr ends ↦ (s, rw (ends, fly_drain) refl, ground (arith, ends, le))
      ]
