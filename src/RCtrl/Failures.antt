-- ===== src/RCtrl/Failures.antt =====
-- Requests to create a queue pair that fail in core/rctrl.hh leave the registry as it was.
use rlibv.Base.{
  ℕ, ◌+◌, false, ◌≡◌, ◌≢◌, refl, none, some, ◌==◌, if◌then◌else◌, inl, inr, arith, ◌⊎◌,
}
use rlibv.Base.Keys.{string_eq, nat_eq}
use rlibv.Result.{Result, is_ok}
use rlibv.Marshal.{ByteBuffer}
use rlibv.Factory.{find, query}
use rlibv.Proto.{ok, wrong_arg, status_code, to_string, RcReq}
use rlibv.RCtrl.{Devices, RCtrl, rc_status, rc_reply}
use rlibv.RCtrl.Registered.{fetch_qp_attr_reply-found}
use rlibv.RCtrl.CreateDelete.{
  connect_new-result, register_new-free, register_new-taken, create_qp-eq-register_new,
  rc_reply-create,
}

module _ (d : Devices) where
  -- A request to create a queue pair on an opened NIC, where the creation succeeds, is answered
  -- `WrongArg`, and the registered queue pairs stay as they were, if the name is taken, or if the
  -- name is free and the connection of the new queue pair returns an error.
  pub rc_reply_refused :
      (s : RCtrl d) (req : RcReq) (nic : d.Nic) (rc : d.Rc)
      → req.whether_create ≡ 1
      → query s.opened_nics req.nic_id ≡ some nic
      → d.create nic req.config none ≡ some rc
      → ((x : d.Rc × ℕ) × (find (to_string req.name) s.registered_qps ≡ some x))
        ⊎ ((find (to_string req.name) s.registered_qps ≡ none)
            × ((x : Result ByteBuffer × d.Rc) × (d.connect rc req.attr ≡ some x)
                × (is_ok x.0 ≡ false)))
      → (s' : RCtrl d) × (rc_reply d s req ≡ some (rc_status wrong_arg, s'))
        × (s'.registered_qps ≡ s.registered_qps)
  rc_reply_refused s req nic rc h opened made (inl (x, taken)) = (
    s,
    rw
        (
          rc_reply-create d s req h,
          create_qp-eq-register_new d s req nic rc opened made,
          register_new-taken d s (to_string req.name) rc req.attr x taken,
        )
        refl,
    refl,
  )
  rc_reply_refused s req nic rc h opened made (inr (free, (x, connected, failed))) = (
    record s { drawn = s.drawn + 1 },
    rw
        (
          rc_reply-create d s req h,
          create_qp-eq-register_new d s req nic rc opened made,
          register_new-free d s (to_string req.name) rc req.attr free,
          connect_new-result d s s.registered_qps (to_string req.name) rc (s.keys s.drawn)
              (s.drawn + 1) req.attr x connected,
          failed,
        )
        refl,
    refl,
  )

  -- A request with `whether_create` 0 is answered `WrongArg`, even though the queue pair that it
  -- names is registered; one with a value from 2 on gets the queue pair's attributes and the key
  -- 0.
  pub rc_reply_existing :
      (s : RCtrl d) (req : RcReq) (rc : d.Rc)
      → query s.registered_qps (to_string req.name) ≡ some rc
      → req.whether_create ≢ 1
      → rc_reply d s req
        ≡ some (
          if req.whether_create == 0
              then rc_status wrong_arg
              else record { status = status_code ok; attr = d.my_attr rc; key = 0 },
          s,
        )
  unfolding rc_reply
  rc_reply_existing s req rc found ne =
      ground (arith, fetch_qp_attr_reply-found d s req.name 0 rc found)
