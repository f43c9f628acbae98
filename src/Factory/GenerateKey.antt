-- ===== src/Factory/GenerateKey.antt =====
-- The loop of `generate_key` in core/utils/abs_factory.hh.
use rlibv.Base.{
  ℕ, zero, suc, ◌+◌, ◌≤◌, ◌<◌, ◌≡◌, ◌≢◌, ap, ◌∙◌, some, arith, ◌==◌, Bool-cases, inl, inr,
}
use rlibv.Factory.{generate_key}

-- If some draw from `at` on is not 0, fuel up to that draw is enough; the key is the first draw that
-- is not 0, and the draws behind it are left for the next call.
pub generate_key_total :
    (fuel : ℕ) (rand : ℕ → ℕ) (at n : ℕ)
    → n < fuel
    → rand (at + n) ≢ 0
    → (k : ℕ) × (generate_key fuel rand at ≡ some (rand (at + k), at + k + 1))
      × (rand (at + k) ≢ 0)
      × (k ≤ n)
unfolding generate_key
generate_key_total zero rand at n h nz = absurd (omega arith)
generate_key_total (suc fuel) rand at zero h nz = (0, ground (arith, start), nz, omega arith)
  where
    start : rand (at + 0) ≡ rand at
    start = ap rand (omega arith)
generate_key_total (suc fuel) rand at (suc n) h nz = elim (Bool-cases (rand at == 0)) [
  | inl more ↦
      let (k, found, nonzero, first) =
        generate_key_total fuel rand (at + 1) n (omega arith)
          (λ e. nz (ap rand (omega arith) ∙ e)) in
      (suc k, ground (arith, ap rand (shift k)), λ e. nonzero (ap rand (shift k) ∙ e), omega arith)
  | inr done ↦ (0, ground (arith, start), λ e. ground (arith, start), omega arith)
]
  where
    shift : (k : ℕ) → at + 1 + k ≡ at + suc k
    shift k = omega arith

    start : rand (at + 0) ≡ rand at
    start = ap rand (omega arith)
