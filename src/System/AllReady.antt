-- ===== src/System/AllReady.antt =====
-- The daemon of core/rctrl.hh with queue pairs of core/qps/rc.hh: what holds of all that is registered with it.
mod Tests
use rlibv.Base.{ℕ, ◌≡◌, ◌≢◌, true, none, some, List}
use rlibv.Base.Keys.{string_eq}
use rlibv.Channel.{Event}
use rlibv.Verbs.{Verbs, Documented}
use rlibv.RCtrl.{RCtrl, handlers}
use rlibv.RCtrl.Daemon.{Stopped, daemon}
use rlibv.RCtrl.Daemon.Keeps.{daemon-Keeps}
use rlibv.RCtrl.Sound.{Sound, Follows, Follows_refl, Follows_trans, handlers-AllKeep}
use rlibv.Qps.RcQp.Connect.{Rts}
use rlibv.System.{devices}
use rlibv.System.Ready.{connected-Rts}
use rlibv.System.Connects.{Known, created-connects}

abbrev pub NotZero : ℕ → Type 0
NotZero key = key ≢ 0

module _ (v : Verbs) (doc : Documented v) where
  -- All names in the registry are different, its queue pairs are valid and ready to send, its keys are not 0, and
  -- the opened NICs know their address and lid.
  abbrev pub AllReady : RCtrl (devices v) → Type 0
  AllReady = Sound (devices v) (Rts v) NotZero (Known v)

  -- The verbs library does what is documented of it, and no key that is drawn is 0. The daemon starts with a
  -- registry of queue pairs where all names are different, every queue pair is valid and ready to send, and no
  -- key is 0; its opened NICs know their address and lid, and no query of a queue pair's state fails. Whatever its turns bring, well formed or not, and unless a behaviour is undefined: where it stops
  -- all this holds again, and its memory regions, DC targets and NICs are those of the start.
  pub daemon-AllReady :
      (turns : List (Event × List Event)) (d d' : Stopped (RCtrl (devices v)))
      → ((n : ℕ) → NotZero (d.state.keys n))
      → ((qp : v.Qp) → v.query_qp qp ≢ none)
      → AllReady d.state
      → daemon (handlers (devices v)) d turns ≡ some d'
      → AllReady d'.state
        × (d'.state.registered_mrs ≡ d.state.registered_mrs)
        × (d'.state.registered_dcs ≡ d.state.registered_dcs)
        × (d'.state.opened_nics ≡ d.state.opened_nics)
  daemon-AllReady turns d d' drawn queries start run =
      let follows =
        daemon-Keeps (Follows (devices v) (Rts v) NotZero (Known v))
          (Follows_refl (devices v) (Rts v) NotZero (Known v))
          (Follows_trans (devices v) (Rts v) NotZero (Known v)) (handlers (devices v))
          (handlers-AllKeep (devices v) (Rts v) NotZero (Known v)
            (λ rc rc' attr res. connected-Rts v doc rc rc' attr res) (created-connects v queries))
          turns d d' run in
      (follows.sound drawn start, follows.mrs, follows.dcs, follows.nics)
