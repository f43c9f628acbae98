-- ===== src/Bench/Window/Outstanding.antt =====
-- How many requests of benchs/or_bench/client.cc stand in the send queue.
--
-- A place in the send queue of the device is free again when the completion of a signaled request is polled: then this
-- request and all those before it are done. Posting to a full queue is refused.
use rlibv.Base.{
  ℕ, zero, suc, ◌+◌, ◌-◌, ◌*◌, ◌/◌, ◌≤◌, ◌<◌, ◌≡◌, refl, ap, Bool, true, false, Option, none, some,
  List, [], ◌∷◌, ◌++◌, ◌==◌, leb, if◌then◌else◌, ◌>>=◌, arith, Bool-cases, inl, inr,
}
use rlibv.Bench.Window.{or_loop, or_round, db_round, is_signaled}

-- The requests up to each signaled one, and those behind the last.
pub record SendQueue : Type 0 where
  pub groups : List ℕ
  pub tail : ℕ

abbrev pub total : List ℕ → ℕ
total [] = 0
total (g ∷ gs) = g + total gs

abbrev pub pushed : ℕ → Bool → SendQueue → SendQueue
pushed n signaled q =
    if signaled
    then record { groups = q.groups ++ ((q.tail + n) ∷ []); tail = 0 }
    else record { groups = q.groups; tail = q.tail + n }

-- `n` requests, of which the last may be signaled
unfoldable pub push : ℕ → ℕ → ℕ → Bool → SendQueue → Option SendQueue
push size n i signaled q =
    if leb (total q.groups + q.tail + n) size then some (pushed n signaled q) else none

abbrev without_first : List ℕ → ℕ → Option SendQueue
without_first [] t = none
without_first (g ∷ gs) t = some (record { groups = gs; tail = t })

-- waiting for a completion, which does not come where no request is signaled
unfoldable pub poll : SendQueue → Option SendQueue
poll q = without_first q.groups q.tail

push_fits :
    (size n i : ℕ) (signaled : Bool) (q : SendQueue)
    → total q.groups + q.tail + n ≤ size
    → push size n i signaled q ≡ some (pushed n signaled q)
unfolding push
push_fits size n i signaled q h =
    let fits : leb (total q.groups + q.tail + n) size ≡ true = ground (arith, h) in
    rw (fits, push) refl

module _ (size max d : ℕ) (pos : 0 < d) (room : 2 * (max + d - 1) ≤ size) (some_max : 0 < max) where
  -- Behind the first round one signaled request is out, and `t` more that are not signaled.
  or_loop_fits :
      (left i t g : ℕ)
      → 0 < i
      → g ≤ max + d - 1
      → t < max
      → (q : SendQueue) × (or_loop
            (push size d)
            poll
            d
            max
            left
            i
            (t + d)
            (record { groups = g ∷ []; tail = t })
          ≡ some q)
        × (q.groups ≡ [])
        × (q.tail < max)
  unfolding or_loop poll
  or_loop_fits zero i t g hi hg low = (record { groups = []; tail = t }, refl, refl, low)
  or_loop_fits (suc left) i t g hi hg low =
      let at : SendQueue = record { groups = g ∷ []; tail = t } in
      let later : (i == 0) ≡ false = ground (arith, hi) in
      let fits = λ (signaled : Bool). push_fits size d i signaled at (omega arith) in
      elim (Bool-cases (leb max (t + d))) [
        | inl over ↦
            let signaled : is_signaled max (t + d) ≡ true = ground (arith, over) in
            let (q, e, none_out, few) =
              or_loop_fits left (i + d) 0 (t + d) (omega arith) (omega arith) some_max in
            (q, rw (signaled, later, fits true, or_loop) e, none_out, few)
        | inr under ↦
            let unsignaled : is_signaled max (t + d) ≡ false = ground (arith, under, pos) in
            let (q, e, none_out, few) =
              or_loop_fits left (i + d) (t + d) g (omega arith) hg (ground (arith, under)) in
            (q, rw (unsignaled, fits false, or_loop) e, none_out, few)
      ]

  -- a whole round, with `t` requests that no one waits for left of the last one
  round_fits :
      (left t : ℕ)
      → t < max
      → (q : SendQueue) × (or_loop
            (push size d)
            poll
            d
            max
            (suc left)
            0
            0
            (record { groups = []; tail = t })
          ≡ some q)
        × (q.groups ≡ [])
        × (q.tail < max)
  unfolding or_loop
  round_fits left t low =
      let first = push_fits size d 0 true (record { groups = []; tail = t }) (omega arith) in
      let (q, e, none_out, few) =
        or_loop_fits left (0 + d) 0 (t + d) (omega arith) (omega arith) some_max in
      (q, rw (first, or_loop) e, none_out, few)

-- `n` rounds of the client
unfoldable pub rounds : ℕ → ℕ → ℕ → SendQueue → Option SendQueue
rounds zero size or_factor q = some q
rounds (suc n) size or_factor q =
    or_round (push size 1) poll size or_factor q >>= rounds n size or_factor

-- The client of or_bench, with a send queue of two places or more and at least one request in a round, makes any
-- number of rounds: posting is never refused, each wait has a completion that comes, and behind a
-- round no completion is open and fewer than half of the places are in use.
pub rounds_fit :
    (n size or_factor t : ℕ)
    → 2 ≤ size
    → 0 < or_factor
    → t < size / 2
    → (q : SendQueue) × (rounds n size or_factor (record { groups = []; tail = t }) ≡ some q)
      × (q.groups ≡ [])
      × (q.tail < size / 2)
unfolding rounds or_round
rounds_fit zero size or_factor t big pos low = (record { groups = []; tail = t }, refl, refl, low)
rounds_fit (suc n) size zero t big pos low = absurd (omega arith)
rounds_fit (suc n) size (suc left) t big pos low =
    let (q, e, none_out, few) =
      round_fits size (size / 2) 1 (omega arith) (omega arith) (omega arith) left t low in
    let same : q ≡ record { groups = []; tail = q.tail } =
      ap (λ gs. record { groups = gs; tail = q.tail }) none_out in
    let (q', e', none_out', few') = rounds_fit n size (suc left) q.tail big pos few in
    (q', rw (e, same) e', none_out', few')

-- Two rounds of db_bench with its default queue of 128 places and 70 requests in a round: the second one finds
-- the queue full, since 60 requests of the first are still in it.
db_rounds_full :
    (db_round (push 128 10) poll 128 70 (record { groups = []; tail = 0 })
      ≡ some (record { groups = []; tail = 60 }))
    × (db_round (push 128 10) poll 128 70 (record { groups = []; tail = 60 }) ≡ none)
unfolding db_round or_loop push poll
db_rounds_full = (refl, refl)
