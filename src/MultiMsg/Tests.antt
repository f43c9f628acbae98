-- ===== src/MultiMsg/Tests.antt =====
-- Runs of core/bootstrap/multi_msg.hh on two short messages, and a header whose sizes wrap.
use rlibv.Base.{refl, ◌≤◌, ◌≡◌, some, none, [], ◌∷◌, ◌++◌, true, arith}
use rlibv.Marshal.{ByteBuffer}
use rlibv.MultiMsg.{
  MultiMsg, new, append, size, create_from, query_one, buf, collect, begin, sanity_check,
}
use rlibv.MultiMsg.Layout.{Holds}
use rlibv.MultiMsg.Append.{new-Holds, append-Holds, query_one-Holds}
use rlibv.MultiMsg.Pair.{pair, pair-Holds, size-new, size-pair}
use rlibv.MultiMsg.Iterate.{collect-begin}
use rlibv.MultiMsg.Transport.{received, create_from-buf}
use rlibv.MultiMsg.Overflow.{InBounds, two_entries, sanity_check_wraps}

abbrev hello : ByteBuffer
hello = 104 ∷ 105 ∷ []

abbrev other : ByteBuffer
other = 1 ∷ 2 ∷ 3 ∷ []

abbrev both : MultiMsg
both = pair 1024 64 hello other

both-Holds : Holds both (hello ∷ other ∷ []) []
both-Holds = pair-Holds 1024 64 hello other (omega arith) (omega arith)

second_message : query_one both 1 ≡ some other
second_message = query_one-Holds 1 both-Holds

reserved-new : (new 1024 64).reserved ≡ 64
unfolding new
reserved-new = refl

append-Holds_example :
    ((append 1024 (new 1024 64) hello).0 ≡ true)
    × Holds (append 1024 (new 1024 64) hello).1 (hello ∷ []) []
    × (size (append 1024 (new 1024 64) hello).1 ≤ (append 1024 (new 1024 64) hello).1.reserved)
append-Holds_example =
    append-Holds 1024 (new 1024 64) [] hello (omega arith) (new-Holds 1024 64)
      (omega (arith, size-new 1024 64)) (omega (arith, size-new 1024 64, reserved-new))
      (omega arith)

query_one-Holds_example : query_one both 2 ≡ none
query_one-Holds_example = query_one-Holds 2 both-Holds

collect-begin_example : collect 3 (begin both) ≡ some (hello ∷ other ∷ [])
collect-begin_example = collect-begin both-Holds

create_from-buf_example :
    create_from 1024 (buf both ++ (0 ∷ 0 ∷ [])) ≡ some (received both (0 ∷ 0 ∷ []))
create_from-buf_example =
    create_from-buf 1024 (0 ∷ 0 ∷ []) both-Holds (omega (arith, size-pair 1024 64 hello other))

sanity_check_wraps_example :
    (sanity_check (two_entries 65000 600 []) 4096 ≡ true)
    × ¬ InBounds (two_entries 65000 600 []) 4096
sanity_check_wraps_example =
    sanity_check_wraps 65000 600 4096 [] (omega arith) (omega arith) (omega arith)
