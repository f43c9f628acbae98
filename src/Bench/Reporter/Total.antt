-- ===== src/Bench/Reporter/Total.antt =====
-- What the reports of benchs/reporter.hh add up to.
use rlibv.Base.{ℕ, ◌+◌, ◌%◌, ◌-◌, ◌≤◌, ◌<◌, ◌≡◌, refl, List, [], ◌∷◌, arith, u64_mod}
use rlibv.Bench.Reporter.{gap, sum_gaps, Epoch, Report, report_from, report_thpt, zeros}

abbrev pub total : List ℕ → ℕ
total [] = 0
total (x ∷ xs) = x + total xs

-- No worker's counter goes back, and there are as many.
abbrev pub Grows : List ℕ → List ℕ → Type 0
Grows [] [] = Unit {0}
Grows [] (y ∷ ys) = ⊥
Grows (x ∷ xs) [] = ⊥
Grows (x ∷ xs) (y ∷ ys) = (x ≤ y) × Grows xs ys

abbrev pub AllGrow : List ℕ → List Epoch → Type 0
AllGrow olds [] = Unit {0}
AllGrow olds (e ∷ epochs) =
    Grows olds e.counters × (total e.counters < u64_mod) × AllGrow e.counters epochs

-- the counters of the last epoch
abbrev pub last : List ℕ → List Epoch → List ℕ
last olds [] = olds
last olds (e ∷ epochs) = last e.counters epochs

abbrev pub reported : List Report → ℕ
reported [] = 0
reported (r ∷ rs) = r.requests + reported rs

sum_gaps-total :
    (olds temps : List ℕ) (sum : ℕ)
    → Grows olds temps
    → sum + total temps < u64_mod
    → sum_gaps olds temps sum + total olds ≡ sum + total temps
unfolding sum_gaps
sum_gaps-total [] [] sum g lt = refl
sum_gaps-total [] (y ∷ ys) sum g lt = absurd g
sum_gaps-total (x ∷ xs) [] sum g lt = absurd g
sum_gaps-total (x ∷ xs) (y ∷ ys) sum g lt =
    let here : (sum + gap y x) % u64_mod ≡ sum + (y - x) = omega (arith, g.0) in
    omega (
      arith,
      g.0,
      here,
      sum_gaps-total xs ys ((sum + gap y x) % u64_mod) g.1 (omega (arith, here, g.0)),
    )

report_from-total :
    (epochs : List Epoch) (olds : List ℕ)
    → AllGrow olds epochs
    → reported (report_from olds epochs) + total olds ≡ total (last olds epochs)
unfolding report_from
report_from-total [] olds g = omega arith
report_from-total (e ∷ epochs) olds g = omega (
  arith,
  sum_gaps-total olds e.counters 0 g.0 (omega (arith, g.1)),
  report_from-total epochs e.counters g.2,
)

total-zeros : (xs : List ℕ) → total (zeros xs) ≡ 0
total-zeros [] = refl
total-zeros (x ∷ xs) = omega (arith, total-zeros xs)

-- Where no counter goes back from one epoch to the next, and the counters of an epoch add up to less than
-- 2^64, the requests that are reported of all epochs are those that the workers have counted at the last one.
pub report_thpt-total :
    (workers : List ℕ) (epochs : List Epoch)
    → AllGrow (zeros workers) epochs
    → reported (report_thpt workers epochs) ≡ total (last (zeros workers) epochs)
unfolding report_thpt
report_thpt-total workers epochs g =
    omega (arith, report_from-total epochs (zeros workers) g, total-zeros workers)
