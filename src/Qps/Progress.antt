-- ===== src/Qps/Progress.antt =====
-- `Progress` of core/qps/mod.hh: 16-bit marks of the requests that were posted and completed.
use rlibv.Base.{ℕ, ◌+◌, ◌-◌, ◌%◌, ◌≤◌, ◌<◌, ◌≡◌, leb, if◌then◌else◌, u16_mod, arith}

pub record Progress : Type 0 where
  pub high_watermark : ℕ
  pub low_watermark : ℕ

abbrev pub num_progress_bits : ℕ
num_progress_bits = 16

unfoldable pub new_progress : Progress
new_progress = record { high_watermark = 0; low_watermark = 0 }

-- the new mark is also what is returned
unfoldable pub forward : Progress → ℕ → Progress
forward p num = record p { high_watermark = (p.high_watermark + num) % u16_mod }

unfoldable pub done : Progress → ℕ → Progress
done p num = record p { low_watermark = num % u16_mod }

unfoldable pub pending_reqs : Progress → ℕ
pending_reqs p =
    if leb p.low_watermark p.high_watermark
    then p.high_watermark - p.low_watermark
    else (u16_mod - 1 - (p.low_watermark - p.high_watermark) + 1) % u16_mod

-- With `posted` requests posted in all and `completed` of them completed, at most 65535 of them
-- pending, the marks, which wrap, tell the number of pending requests.
pending_reqs_lem :
    (posted completed : ℕ)
    → completed ≤ posted
    → posted - completed < u16_mod
    → pending_reqs (done (forward new_progress posted) completed) ≡ posted - completed
unfolding pending_reqs done forward new_progress
pending_reqs_lem posted completed h k = ground arith
