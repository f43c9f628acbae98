-- ===== src/Qps/Rc.antt =====
-- core/qps/rc.hh: what an `RC` queue pair keeps, its requests and their completions; with
-- `poll_send_comp`, `wait_one_comp` of core/qps/mod.hh and `bitmask` of core/utils/mod.hh.
--
-- The verbs library is a parameter: the flag `IBV_SEND_SIGNALED`, what a call of it
-- brings. What an `RC` has of the library is in `Qps.RcQp`. An `ibv_wc` is its id and whether its status is success; a failed `ibv_poll_cq`
-- leaves it as it was, uninitialised, and so any value. A wait takes what its polls bring, until its
-- time is over. An outer `none` is a failed assertion, or a `value()` that is not there.
pub mod Watermark
mod Tests
use Prim.Native.Nat.{bit_and, bit_or}
use rlibv.Base.{
  ℕ, zero, suc, ◌+◌, ◌-◌, ◌*◌, ◌/◌, ◌%◌, ◌^◌, Bool, true, false, Option, none, some, List, [], ◌∷◌,
  ◌==◌, not, if◌then◌else◌, u16_mod, u32_mod, u64_mod, ◌>>=◌,
}
use rlibv.Base.Text.{codes}
use rlibv.Result.{Result, make_ok, make_err, make_timeout, is_ok}
use rlibv.Marshal.{ByteBuffer}
use rlibv.Proto.{RegAttr, QpAttr}
use rlibv.Qps.Progress.{Progress, forward, done, num_progress_bits}

pub record Rc : Type 0 where
  pub local_mr : Option RegAttr
  pub remote_mr : Option RegAttr
  pub ready : Bool
  pub progress : Progress
  pub out_signaled : ℕ

unfoldable pub bind_remote_mr : Rc → RegAttr → Rc
bind_remote_mr q mr = record q { remote_mr = some mr }

unfoldable pub bind_local_mr : Rc → RegAttr → Rc
bind_local_mr q mr = record q { local_mr = some mr }

pub record ReqDesc : Type 0 where
  pub op : ℕ
  pub flags : ℕ
  pub len : ℕ
  pub wr_id : ℕ

pub record ReqPayload : Type 0 where
  pub local_addr : ℕ
  pub remote_addr : ℕ
  pub imm_data : ℕ

-- the `ibv_send_wr` that is posted, with its one `ibv_sge`
pub record SendWr : Type 0 where
  pub wr_id : ℕ
  pub opcode : ℕ
  pub send_flags : ℕ
  pub imm_data : ℕ
  pub remote_addr : ℕ
  pub rkey : ℕ
  pub sge_addr : ℕ
  pub sge_length : ℕ
  pub sge_lkey : ℕ

-- `bitmask<R>` for a type of `w` bits; the shift by all bits that the count 0 makes is masked to 0
unfoldable pub bitmask : ℕ → ℕ → ℕ
bitmask w onecount = if onecount == 0 then 0 else (2 ^ w - 1) / 2 ^ (w - onecount)

unfoldable pub encode_my_wr : Rc → ℕ → ℕ → ℕ × Rc
encode_my_wr q wr forward_num =
    let p = forward q.progress forward_num in
    (bit_or ((wr * 2 ^ num_progress_bits) % u64_mod) p.high_watermark, record q { progress = p })

-- What sending leaves: the result, the request that was posted, and the queue pair.
pub record Sent : Type 0 where
  pub result : Result ByteBuffer
  pub request : SendWr
  pub qp : Rc

-- `signaled` is the flag; `refused` is `none`, or the text of `errno` where `ibv_post_send` fails.
unfoldable pub send_with :
    ℕ → Option ByteBuffer → Rc → ReqDesc → ReqPayload → RegAttr → RegAttr → Option Sent
send_with signaled refused q desc payload local remote =
    let (id, q') = encode_my_wr q desc.wr_id 1 in
    if q.ready
    then some (record {
      result = elim refused [ none ↦ make_ok (codes "") | some why ↦ make_err why ];
      request = record {
        wr_id = id;
        opcode = desc.op;
        send_flags = desc.flags;
        imm_data = payload.imm_data % u32_mod;
        remote_addr = (remote.buf + payload.remote_addr) % u64_mod;
        rkey = remote.key;
        sge_addr = payload.local_addr;
        sge_length = desc.len;
        sge_lkey = local.lkey;
      };
      qp =
          if bit_and desc.flags signaled == 0
          then q'
          else record q' { out_signaled = (q'.out_signaled + 1) % u32_mod };
    })
    else none

-- the version with the regions that are bound to the queue pair
unfoldable pub send_normal : ℕ → Option ByteBuffer → Rc → ReqDesc → ReqPayload → Option Sent
send_normal signaled refused q desc payload = q.local_mr >>= λ local.
    q.remote_mr >>= λ remote. send_with signaled refused q desc payload local remote

pub record Wc : Type 0 where
  pub wr_id : ℕ
  pub success : Bool

-- `ibv_poll_cq` finds nothing, fails, or brings a completion.
pub data Poll : Type 0 where
  nothing : Poll
  failed completed : Wc → Poll

unfoldable pub poll_send_comp : Rc → Poll → Rc
poll_send_comp q nothing = q
poll_send_comp q (failed wc) = q
poll_send_comp q (completed wc) = record q {
  out_signaled = (q.out_signaled + (u32_mod - 1)) % u32_mod;
}

-- the user's id and the mark of a completion
unfoldable pub user_wr : Wc → ℕ
user_wr wc = wc.wr_id / 2 ^ num_progress_bits

unfoldable pub water_mark : Wc → ℕ
unfolding bitmask
water_mark wc = bit_and wc.wr_id (bitmask 64 num_progress_bits)

-- A failed poll is taken for a completion.
unfoldable pub poll_rc_comp : Rc → Poll → Option (ℕ × Wc) × Rc
poll_rc_comp q nothing = (none, q)
poll_rc_comp q (failed wc) = (
  some (user_wr wc, wc),
  record (poll_send_comp q (failed wc)) { progress = done q.progress (water_mark wc) },
)
poll_rc_comp q (completed wc) = (
  some (user_wr wc, wc),
  record (poll_send_comp q (completed wc)) { progress = done q.progress (water_mark wc) },
)

-- The list has what the polls until the timeout bring. Of a result that is not `Ok` the id is 0, and the
-- completion is uninitialised: `none`.
unfoldable pub wait_rc_comp : Rc → List Poll → Result (ℕ × Option Wc) × Rc
wait_rc_comp q [] = (make_timeout (0, none), q)
wait_rc_comp q (p ∷ ps) =
    let (res, q') = poll_rc_comp q p in
    let again = wait_rc_comp q' ps in
    elim res [
      | none ↦ again
      | some (id, wc) ↦ (if wc.success then make_ok (id, some wc) else make_err (0, none), q')
    ]

-- `wait_one_comp`; a timeout or an error carries the last completion, initialised or not
unfoldable pub wait_one_comp : Rc → List Poll → Result (Option Wc) × Rc
wait_one_comp q [] = (make_timeout none, q)
wait_one_comp q (nothing ∷ ps) = wait_one_comp q ps
wait_one_comp q (failed wc ∷ ps) = (make_err (some wc), poll_send_comp q (failed wc))
wait_one_comp q (completed wc ∷ ps) =
    (if wc.success then make_ok (some wc) else make_err (some wc), poll_send_comp q (completed wc))
