-- ===== src/Bench/Window.antt =====
-- The loops of benchs/or_bench/client.cc and benchs/db_bench/client.cc, which signal one request among many.
--
-- The number of requests in a round, and the counters `i` and `or_idx`, are taken to be below 2^31.
-- Posting and waiting are parameters: `post i signaled` makes and posts the request (or the batch) of round `i`,
-- `wait` is `wait_one_comp`; `none` is an assertion that fails.
pub mod Balance
pub mod Outstanding
use rlibv.Base.{
  ℕ, zero, suc, ◌+◌, ◌*◌, ◌/◌, Bool, true, false, Option, none, some, ◌==◌, leb, not, ◌&&◌, ◌||◌,
  if◌then◌else◌, ◌>>=◌,
}

-- `or_idx == 0 || or_idx >= or_max`
abbrev pub is_signaled : ℕ → ℕ → Bool
is_signaled or_max or_idx = or_idx == 0 || leb or_max or_idx

module _ {S : Type 0} (post : ℕ → Bool → S → Option S) (wait : S → Option S) where
  abbrev pub wait_if : Bool → S → Option S
  wait_if true s = wait s
  wait_if false s = some s

  -- The inner loop with `left` rounds to go, and the last wait behind it.
  unfoldable pub or_loop : ℕ → ℕ → ℕ → ℕ → ℕ → S → Option S
  or_loop stride or_max zero i or_idx s = wait s
  or_loop stride or_max (suc left) i or_idx s =
      let signaled = is_signaled or_max or_idx in
      let from : ℕ = if signaled then 0 else or_idx in
      post i signaled s >>= λ s₁. wait_if (signaled && not (i == 0)) s₁ >>= λ s₂.
      or_loop stride or_max left (i + stride) (from + stride) s₂

-- What the clients do between two counts: `or_factor` requests one by one
unfoldable pub or_round :
    {S : Type 0} → (ℕ → Bool → S → Option S) → (S → Option S) → ℕ → ℕ → S → Option S
or_round post wait max_send_sz or_factor s = or_loop post wait 1 (max_send_sz / 2) or_factor 0 0 s

abbrev pub db_factor : ℕ
db_factor = 10

-- the assertion on the number of requests
abbrev pub db_fits : ℕ → Bool
db_fits or_factor =
    leb (suc db_factor) or_factor && (or_factor / db_factor * db_factor == or_factor)

-- and in batches of ten, where the assertion holds
unfoldable pub db_round :
    {S : Type 0} → (ℕ → Bool → S → Option S) → (S → Option S) → ℕ → ℕ → S → Option S
db_round post wait max_send_sz or_factor s =
    or_loop post wait db_factor (max_send_sz / 2) (or_factor / db_factor) 0 0 s
