-- ===== src/Release/Tests.antt =====
-- What is given back on a library where every call succeeds.
use rlibv.Base.{◌≡◌, refl, true, some, [], ◌∷◌}
use rlibv.Verbs.Tests.{simple}
use rlibv.Nic.Tests.{nic, config}
use rlibv.Qps.Dummy
use rlibv.Qps.Dc.Tests.{ready, created}
use rlibv.Release.{destroys_qp, destroys_cq, dc_dtor}
use rlibv.Release.Twice.{dc_dtor-create}

ready_valid : Dummy.valid simple ready.dummy ≡ true
unfolding Dummy.valid
ready_valid = refl

dc_dtor-create_example :
    (qp : simple.Qp) × (cq : simple.Cq) × (ready.dummy.qp ≡ some qp)
    × (dc_dtor simple ready
        ≡ destroys_qp qp ∷ destroys_cq cq ∷ destroys_qp qp ∷ destroys_cq cq ∷ [])
dc_dtor-create_example = dc_dtor-create simple nic config ready created ready_valid
