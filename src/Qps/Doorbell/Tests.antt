-- ===== src/Qps/Doorbell/Tests.antt =====
-- A batch of at most four with two requests pending: core/qps/doorbell_helper.hh.
use rlibv.Base.{◌≡◌, refl, some, [], ◌∷◌, arith}
use rlibv.Qps.WrChain.{chain}
use rlibv.Qps.Doorbell.{DoorbellHelper, new, next, freeze, clear, sanity_check_sz}
use rlibv.Qps.Doorbell.Freeze.{Linked, new-Linked, next-Linked, freeze-clear}

abbrev two : DoorbellHelper
two = (next 4 (next 4 (new 4 7)).1).1

two-Linked : Linked 4 two
two-Linked = next-Linked 4 (next 4 (new 4 7)).1 (next-Linked 4 (new 4 7) (new-Linked 4 7))

two_pending : two.count ≡ 2
unfolding new next
two_pending = refl

freeze-clear_example :
    (d' : DoorbellHelper) × (d'' : DoorbellHelper) × (freeze 4 two ≡ some d')
    × (chain 4 d'.nexts 0 ≡ some (0 ∷ 1 ∷ []))
    × (sanity_check_sz 4 d' ≡ some 2)
    × (clear 4 d' ≡ some d'')
    × Linked 4 d''
    × (d''.count ≡ 0)
unfolding new next
freeze-clear_example = freeze-clear 4 two two-Linked (omega (arith, two_pending))
