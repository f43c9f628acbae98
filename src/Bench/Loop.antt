-- ===== src/Bench/Loop.antt =====
-- benchs/*/client.cc: what the loops of the clients work on, and how they wait.
--
-- The device is a parameter: `refused` has for each post the text of `errno`, or none, and `polls` for each wait what its
-- polls bring. `none` is an assertion that fails.
use rlibv.Base.{ℕ, ◌+◌, Option, none, some, List, if◌then◌else◌}
use rlibv.Marshal.{ByteBuffer}
use rlibv.Result.{is_ok}
use rlibv.Qps.Rc.{Rc, Poll, wait_one_comp}
use rlibv.Qps.Op.{Executed}
use rlibv.Bench.FastRandom.{FastRandom}
use rlibv.Bench.Reporter.{Statics, increment}

pub record Client (R : Type 0) : Type 0 where
  pub requests : R
  pub qp : Rc
  pub rand : FastRandom
  pub statics : Statics
  pub posts : ℕ
  pub waits : ℕ

abbrev pub Refused : Type 0
Refused = ℕ → Option ByteBuffer

abbrev pub Polls : Type 0
Polls = ℕ → List Poll

module _ {R : Type 0} where
  -- `wait_one_comp` and the assertion on its result
  unfoldable pub wait_ok : Polls → Client R → Option (Client R)
  wait_ok polls c =
      let (res, q) = wait_one_comp c.qp (polls c.waits) in
      if is_ok res then some (record c { qp = q; waits = c.waits + 1 }) else none

  -- an executed request and the assertion on its result
  unfoldable pub posted_ok : Client R → R → Executed → FastRandom → Option (Client R)
  posted_ok c requests e rand =
      if is_ok e.result
      then some (record c { requests = requests; qp = e.qp; rand = rand; posts = c.posts + 1 })
      else none

  -- `ss.increment(d)`
  abbrev pub counted : ℕ → Client R → Client R
  counted d c = record c { statics = increment c.statics d }
