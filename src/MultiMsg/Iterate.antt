-- ===== src/MultiMsg/Iterate.antt =====
-- The loop over `MsgsIter` of core/bootstrap/multi_msg_iter.hh.
use rlibv.Base.{
  ℕ, zero, suc, ◌+◌, ◌≤◌, ◌<◌, ◌≡◌, ap, some, List, [], length, get_or, arith, drop, drop-eq-cons,
  drop-eq-nil, ltb, lt→ltb, Bool-cases, inl, inr,
}
use rlibv.Marshal.{ByteBuffer}
use rlibv.MultiMsg.{MultiMsg, MsgsIter, begin, next, cur_msg, collect}
use rlibv.MultiMsg.Layout.{Holds}
use rlibv.MultiMsg.Append.{entry_bytes-Holds}

module _ {m : MultiMsg} {msgs : List ByteBuffer} {pad : ByteBuffer} (h : Holds m msgs pad) where
  abbrev at : ℕ → MsgsIter
  at i = record { msgs = m; cur_idx = i }

  cur_msg-Holds : (i : ℕ) → i < length msgs → cur_msg (at i) ≡ some (get_or msgs i [])
  unfolding cur_msg
  cur_msg-Holds i inside =
      rw (lt→ltb i m.header.num (omega (arith, h.count))) (ap some (entry_bytes-Holds i h inside))

  -- From position `i` on the loop collects the messages from there on.
  collect_from :
      (fuel i : ℕ)
      → i ≤ length msgs
      → length msgs < fuel + i
      → collect fuel (at i) ≡ some (drop i msgs)
  unfolding collect next
  collect_from zero i p q = absurd (omega arith)
  collect_from (suc fuel) i p q = elim (Bool-cases (ltb i m.header.num)) [
    | inl more ↦
        ground (arith, h.count, cur_msg-Holds i, collect_from fuel (i + 1), drop-eq-cons msgs i [])
    | inr done ↦ ground (arith, h.count, drop-eq-nil i msgs)
  ]

  -- A walk over a message that holds a list ends within one step more than the list has messages,
  -- and gives the list, in order.
  pub collect-begin : collect (suc (length msgs)) (begin m) ≡ some msgs
  unfolding begin
  collect-begin = collect_from (suc (length msgs)) 0 (omega arith) (omega arith)
