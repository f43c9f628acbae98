-- ===== src/Qps/RecvIter.antt =====
-- core/qps/recv_iter.hh: `RecvIter`, which walks received messages and posts their buffers again.
--
-- `ibv_poll_cq` is the verbs library's: what a call of it brings is the list of completions that it
-- writes, or `none` where it fails. The counters are `int`s; a negative `total_msgs` is `none`. The
-- entries that the iterator points at belong to the queue pair's user, and so are an argument of `clear`.
pub mod Drain
mod Tests
use rlibv.Base.{
  ℕ, zero, suc, ◌+◌, Bool, true, false, Option, none, some, List, [], ◌∷◌, ◌++◌, length, drop, ltb,
  get_elem?, ◌&&◌, if◌then◌else◌, ◌>>=◌,
}
use rlibv.Qps.RecvEntries.{RecvEntries, Posted, post_recvs}

-- an `ibv_wc` of a receive: the id is the buffer's address
pub record RecvWc : Type 0 where
  pub wr_id : ℕ
  pub imm_data : ℕ

-- `has_qp` and `has_entries`: the pointer is not null. `wcs` is the array that the iterator points at.
pub record RecvIter : Type 0 where
  pub has_qp : Bool
  pub has_entries : Bool
  pub wcs : List RecvWc
  pub idx : ℕ
  pub total_msgs : Option ℕ

-- `RecvIter()`, whose array is not set
unfoldable pub default_iter : RecvIter
default_iter = record { has_qp = false; has_entries = false; wcs = []; idx = 0; total_msgs = none }

-- how many completions a poll brings
unfoldable pub polled : Option (List RecvWc) → Option ℕ
polled none = none
polled (some ws) = some (length ws)

-- the array behind a poll, which writes its first entries
unfoldable pub fill : List RecvWc → Option (List RecvWc) → List RecvWc
fill wcs none = wcs
fill wcs (some ws) = ws ++ drop (length ws) wcs

-- from a completion queue
unfoldable pub of_cq : List RecvWc → Option (List RecvWc) → RecvIter
unfolding fill polled
of_cq wcs poll = record {
  has_qp = false;
  has_entries = false;
  wcs = fill wcs poll;
  idx = 0;
  total_msgs = polled poll;
}

-- from a queue pair
unfoldable pub of_qp : List RecvWc → Option (List RecvWc) → RecvIter
unfolding of_cq
of_qp wcs poll = record (of_cq wcs poll) { has_qp = true }

-- from a queue pair and its entries, whose array it is
unfoldable pub new : List RecvWc → Option (List RecvWc) → RecvIter
unfolding of_qp
new wcs poll = record (of_qp wcs poll) { has_entries = true }

unfoldable pub set_meta : RecvIter → List RecvWc → RecvIter
set_meta it wcs = record it { has_qp = true; has_entries = true; wcs = wcs }

-- The poll writes the array that is passed, which is the iterator's own or another one.
unfoldable pub begin : RecvIter → Bool → Option (List RecvWc) → RecvIter
unfolding fill polled
begin it own poll = record it {
  wcs = if own then fill it.wcs poll else it.wcs;
  total_msgs = polled poll;
  idx = 0;
}

unfoldable pub has_msgs : RecvIter → Bool
has_msgs it = elim it.total_msgs [ none ↦ false | some n ↦ ltb it.idx n ]

-- An outer `none` reads behind the array.
unfoldable pub cur_msg : RecvIter → Option (Option (ℕ × ℕ))
unfolding has_msgs
cur_msg it =
    if has_msgs it
    then (get_elem? it.wcs it.idx >>= λ w. some (some (w.imm_data, w.wr_id)))
    else some none

unfoldable pub next : RecvIter → RecvIter
next it = record it { idx = it.idx + 1 }

-- the loop `for (; iter.has_msgs(); iter.next())` that collects the messages; the first argument is the
-- fuel
unfoldable pub collect : ℕ → RecvIter → Option (List (ℕ × ℕ))
collect zero it = none
collect (suc fuel) it =
    let rest = (cur_msg it >>= λ m. m >>= λ x. collect fuel (next it) >>= λ xs. some (x ∷ xs)) in
    if has_msgs it then rest else some []

-- What `clear` leaves: what it posted, if it posted, the ring, and the iterator.
pub record Cleared : Type 0 where
  pub posted : Option (List ℕ)
  pub ring : RecvEntries
  pub iter : RecvIter

abbrev pub off : RecvIter → RecvIter
off it = record it { total_msgs = none }

-- An error of `post_recvs` is logged only.
abbrev pub cleared_by : RecvIter → Posted → Cleared
cleared_by it p = record { posted = some p.seen; ring = p.ring; iter = off it }

-- `clear`, also the destructor, with the ring of `n` entries
unfoldable pub clear : ℕ → Option ℕ → RecvIter → RecvEntries → Option Cleared
clear n refused it r = elim it.total_msgs [
  | none ↦ some (record { posted = none; ring = r; iter = off it })
  | some total ↦
      if ltb 0 total && (it.has_qp && it.has_entries)
      then (post_recvs n refused r total >>= λ p. some (cleared_by it p))
      else some (record { posted = none; ring = r; iter = off it })
]
