-- ===== src/Bench/Reporter.antt =====
-- benchs/statics.hh and benchs/reporter.hh: the counters of the workers, and what is reported of them each second.
--
-- What the reporter reads in an epoch is a list of the counters, one of each worker, and the time that has passed. The
-- rate, which is a floating-point number, is left as the number of requests with this time.
pub mod Total
use rlibv.Base.{ℕ, zero, ◌+◌, ◌%◌, ◌-◌, List, [], ◌∷◌, u64_mod}

-- `data_t`, without the member `lat`, a floating-point number that stays 0
pub record Statics : Type 0 where
  pub counter : ℕ
  pub counter1 : ℕ
  pub counter2 : ℕ
  pub counter3 : ℕ

abbrev pub new_statics : Statics
new_statics = record { counter = 0; counter1 = 0; counter2 = 0; counter3 = 0 }

unfoldable pub increment : Statics → ℕ → Statics
increment s d = record s { counter = (s.counter + d) % u64_mod }

unfoldable pub increment_gap_1 : Statics → ℕ → Statics
increment_gap_1 s d = record s { counter1 = (s.counter1 + d) % u64_mod }

-- `temp - old_statics[i].data.counter`
abbrev pub gap : ℕ → ℕ → ℕ
gap temp old = (temp + u64_mod - old) % u64_mod

-- The loop over the workers: the counters of the last epoch, those that are read now, and the sum so far.
unfoldable pub sum_gaps : List ℕ → List ℕ → ℕ → ℕ
sum_gaps [] temps sum = sum
sum_gaps (old ∷ olds) [] sum = sum
sum_gaps (old ∷ olds) (temp ∷ temps) sum = sum_gaps olds temps ((sum + gap temp old) % u64_mod)

-- What is read in an epoch: the counters, and `passed_msec`.
pub record Epoch : Type 0 where
  pub counters : List ℕ
  pub passed : ℕ

-- what is reported of an epoch
pub record Report : Type 0 where
  pub requests : ℕ
  pub passed : ℕ

-- The loop over the epochs, with the counters of the last one.
unfoldable pub report_from : List ℕ → List Epoch → List Report
report_from olds [] = []
report_from olds (e ∷ epochs) =
    record { requests = sum_gaps olds e.counters 0; passed = e.passed }
    ∷ report_from e.counters epochs

abbrev pub zeros : List ℕ → List ℕ
zeros [] = []
zeros (x ∷ xs) = 0 ∷ zeros xs

-- `old_statics(statics.size())`; the first list has one entry for each worker
unfoldable pub report_thpt : List ℕ → List Epoch → List Report
unfolding report_from
report_thpt workers epochs = report_from (zeros workers) epochs

-- The rate in bytes is left as the number of requests with the bytes of each.
pub record Bandwidth : Type 0 where
  pub thpt : Report
  pub payload_per_req : ℕ

abbrev pub with_payload : ℕ → List Report → List Bandwidth
with_payload payload [] = []
with_payload payload (r ∷ rs) =
    record { thpt = r; payload_per_req = payload } ∷ with_payload payload rs

-- The loop is the one of `report_thpt`.
unfoldable pub report_bandwidth : List ℕ → List Epoch → ℕ → List Bandwidth
unfolding report_from
report_bandwidth workers epochs payload = with_payload payload (report_from (zeros workers) epochs)
