-- ===== src/Factory/Tests.antt =====
-- Runs of core/utils/abs_factory.hh.
use rlibv.Base.{ℕ, zero, suc, ◌+◌, ◌≤◌, ◌≡◌, ◌≢◌, refl, some, none, List, [], ◌∷◌, arith}
use rlibv.Base.Keys.{nat_eq}
use rlibv.Factory
use rlibv.Factory.{Store, generate_key, query_or_default}
use rlibv.Factory.Laws.{
  Call, registers, queries, deregisters, granted, resource, run, spec_run, run_refines,
}
use rlibv.Factory.GenerateKey.{generate_key_total}

-- two draws of 0, and then the number of the draw
abbrev draws : ℕ → ℕ
draws zero = 0
draws (suc zero) = 0
draws (suc (suc n)) = suc (suc n)

abbrev calls : List (Call ℕ ℕ)
calls =
    registers 73 5 11
    ∷ registers 73 6 12
    ∷ deregisters 73 12
    ∷ queries 73
    ∷ deregisters 73 11
    ∷ queries 73
    ∷ []

replies :
    spec_run {K = ℕ} {V = ℕ} (λ k. none) calls
    ≡ granted (some 11)
      ∷ granted none
      ∷ resource none
      ∷ resource (some 5)
      ∷ resource (some 5)
      ∷ resource none
      ∷ []
unfolding spec_run
replies = refl

run_refines_example : run {K = ℕ} {V = ℕ} [] calls ≡ spec_run (λ k. none) calls
unfolding Factory.find
run_refines_example = run_refines calls [] (λ k. none) tt (λ j. refl)

generate_key_total_example :
    (k : ℕ) × (generate_key 5 draws 0 ≡ some (draws (0 + k), 0 + k + 1))
    × (draws (0 + k) ≢ 0)
    × (k ≤ 3)
generate_key_total_example = generate_key_total 5 draws 0 3 (omega arith) (λ e. omega arith)
