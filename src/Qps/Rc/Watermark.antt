-- ===== src/Qps/Rc/Watermark.antt =====
-- The mark that core/qps/rc.hh sends in the low bits of a request's id, and what comes back.
use Prim.Native.Nat.{bit_or}
use rlibv.Base.{ℕ, ◌+◌, ◌*◌, ◌%◌, ◌^◌, ◌<◌, ◌≡◌, ap, ◌∙◌, Bool, true, some, u16_mod, u64_mod, arith}
use rlibv.Base.Bits.{bit_or-add, bit_and_ones}
use rlibv.Qps.Progress.{forward, done, pending_reqs, num_progress_bits}
use rlibv.Qps.Rc.{
  Rc, Wc, completed, encode_my_wr, bitmask, user_wr, water_mark, poll_rc_comp, poll_send_comp,
}

encode_my_wr-eq-add :
    (q : Rc) (wr n : ℕ)
    → wr < 2 ^ 48
    → (encode_my_wr q wr n).0 ≡ wr * 2 ^ 16 + (q.progress.high_watermark + n) % u16_mod
unfolding encode_my_wr forward
encode_my_wr-eq-add q wr n h =
    ap (λ (m : ℕ). bit_or m ((q.progress.high_watermark + n) % u16_mod)) fits
    ∙ bit_or-add 16 wr ((q.progress.high_watermark + n) % u16_mod) (omega arith)
  where
    fits : (wr * 2 ^ num_progress_bits) % u64_mod ≡ wr * 2 ^ 16
    fits = omega arith

water_mark_lem : (wc : Wc) → water_mark wc ≡ wc.wr_id % u16_mod
unfolding water_mark bitmask
water_mark_lem wc = bit_and_ones 16 wc.wr_id

-- A request's id below 2^48 comes back with its completion, and the completion's mark is the one that
-- the request was posted with.
pub user_wr-encode_my_wr :
    (q : Rc) (wr n : ℕ) (ok : Bool)
    → wr < 2 ^ 48
    → (user_wr (record { wr_id = (encode_my_wr q wr n).0; success = ok }) ≡ wr)
      × (water_mark (record { wr_id = (encode_my_wr q wr n).0; success = ok })
          ≡ (encode_my_wr q wr n).1.progress.high_watermark)
unfolding user_wr encode_my_wr forward
user_wr-encode_my_wr q wr n ok h = (
  omega (arith, encode_my_wr-eq-add q wr n h),
  water_mark_lem (record { wr_id = (encode_my_wr q wr n).0; success = ok })
      ∙ omega (arith, encode_my_wr-eq-add q wr n h),
)

marks :
    (q : Rc) (wr later : ℕ)
    → later < u16_mod
    → pending_reqs (
        done
          (encode_my_wr (encode_my_wr q wr 1).1 0 later).1.progress
          (encode_my_wr q wr 1).1.progress.high_watermark)
      ≡ later
unfolding pending_reqs done encode_my_wr forward
marks q wr later k = ground arith

-- the queue pair behind a request with the id `wr` and `later` more that are counted after it
abbrev pub behind : Rc → ℕ → ℕ → Rc
behind q wr later = (encode_my_wr (encode_my_wr q wr 1).1 0 later).1

abbrev pub completion : Rc → ℕ → Wc
completion q wr = record { wr_id = (encode_my_wr q wr 1).0; success = true }

-- After a request with an id below 2^48 is posted, and `later` more behind it, at most 65535, the
-- completion of the first one gives its id back, and leaves exactly the later ones pending.
pub pending_reqs-poll_rc_comp :
    (q : Rc) (wr later : ℕ)
    → wr < 2 ^ 48
    → later < u16_mod
    → ((poll_rc_comp (behind q wr later) (completed (completion q wr))).0
        ≡ some (wr, completion q wr))
      × (pending_reqs (poll_rc_comp (behind q wr later) (completed (completion q wr))).1.progress
          ≡ later)
unfolding poll_rc_comp poll_send_comp
pending_reqs-poll_rc_comp q wr later h k = (
  ap (λ (m : ℕ). some (m, completion q wr)) (user_wr-encode_my_wr q wr 1 true h).0,
  ap (λ (m : ℕ). pending_reqs (done (behind q wr later).progress m))
        (user_wr-encode_my_wr q wr 1 true h).1
      ∙ marks q wr later k,
)
