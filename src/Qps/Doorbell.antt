-- ===== src/Qps/Doorbell.antt =====
-- core/qps/doorbell_helper.hh: `DoorbellHelper`, send requests that are posted together.
--
-- `cur_idx` is kept as the number of pending requests, `cur_idx + 1`; it stays an `i8`, since at most
-- 16 requests are batched. Of a request its `next` pointer is modelled, and the operation that all of
-- them have; the caller fills in the rest. `none` is a failed assertion, or a pointer outside of the array.
pub mod Freeze
mod Tests
use rlibv.Base.{
  ℕ, zero, suc, ◌+◌, ◌-◌, Bool, true, false, Option, none, some, ◌==◌, if◌then◌else◌, set,
  get_elem?, ◌>>=◌,
}
use rlibv.Qps.WrChain.{Nexts, ring_from}

pub record DoorbellHelper : Type 0 where
  pub op : ℕ
  pub nexts : Nexts
  pub count : ℕ

-- The functions take the template's `N` first.
module _ (n : ℕ) where
  unfoldable pub new : ℕ → DoorbellHelper
  new op = record { op = op; nexts = ring_from 0 n; count = 0 }

  unfoldable pub size : DoorbellHelper → ℕ
  size d = d.count

  unfoldable pub empty : DoorbellHelper → Bool
  unfolding size
  empty d = size d == 0

  unfoldable pub full : DoorbellHelper → Bool
  unfolding size
  full d = size d == n

  unfoldable pub next : DoorbellHelper → Bool × DoorbellHelper
  unfolding full
  next d = if full d then (false, d) else (true, record d { count = d.count + 1 })

  unfoldable pub freeze : DoorbellHelper → Option DoorbellHelper
  unfolding empty
  freeze d = if empty d then none else some (record d { nexts = set d.nexts (d.count - 1) none })

  unfoldable pub freeze_at : DoorbellHelper → ℕ → DoorbellHelper
  freeze_at d idx = record d { nexts = set d.nexts idx none }

  unfoldable pub freeze_done_at : DoorbellHelper → ℕ → DoorbellHelper
  freeze_done_at d idx = record d {
    nexts = set d.nexts idx (some (if idx == n - 1 then 0 else idx + 1));
  }

  -- With `n` requests pending, this pointer goes behind the array.
  unfoldable pub freeze_done : DoorbellHelper → Option DoorbellHelper
  unfolding empty
  freeze_done d =
      if empty d then none else some (record d { nexts = set d.nexts (d.count - 1) (some d.count) })

  unfoldable pub clear : DoorbellHelper → Option DoorbellHelper
  unfolding freeze_done
  clear d = freeze_done d >>= λ d'. some (record d' { count = 0 })

  -- the loop of `sanity_check_sz` with `left` rounds left, at the request `cur`
  unfoldable pub walk : ℕ → Nexts → ℕ → ℕ → Option ℕ
  walk zero nexts cur i = some (n + 1)
  walk (suc left) nexts cur i = elim (get_elem? nexts cur) [
    | none ↦ none
    | some none ↦ some (i + 1)
    | some (some j) ↦ walk left nexts j (i + 1)
  ]

  unfoldable pub sanity_check_sz : DoorbellHelper → Option ℕ
  unfolding empty walk
  sanity_check_sz d = if empty d then some 0 else walk n d.nexts 0 0
