-- ===== src/RCtrl/Daemon/Keeps.antt =====
-- What every handler keeps, the daemon of core/rctrl.hh keeps, as long as it runs.
use rlibv.Base.{
  ◌+◌, ◌%◌, ◌≡◌, sym, refl, ◌∙◌, none, some, List, [], ◌∷◌, ◌++◌, Bool-cases, inl, inr, none≢some,
  u64_mod,
}
use mathlib.Core.Option.{some_inj}
use mathlib.Core.Path.{subst}
use rlibv.Channel.{Event}
use rlibv.Srpc.Server.{Handlers, run_one_event_loop}
use rlibv.Srpc.Keeps.{AllKeep, run_one_event_loop-Keeps}
use rlibv.RCtrl.Daemon.{Stopped, daemon}

module _ {S : Type 0} (R : S → S → Type 0) (same : (s : S) → R s s)
    (chain : (s t u : S) → R s t → R t u → R s u) (hs : Handlers S)
    (keep : AllKeep R same chain hs) where
  -- Whatever the turns bring, the states before the daemon's run and behind it are related.
  pub daemon-Keeps :
      (turns : List (Event × List Event)) (d d' : Stopped S)
      → daemon hs d turns ≡ some d'
      → R d.state d'.state
  unfolding daemon
  daemon-Keeps [] d d' e =
      subst (λ (x : Stopped S). R d.state x.state) (some_inj.0 e) (same d.state)
  daemon-Keeps ((ev, evs) ∷ turns) d d' e =
      let r = run_one_event_loop hs d.state d.channel ev evs in
      let behind : Stopped S = record {
        state = r.state;
        channel = r.channel;
        replies = r.replies ++ d.replies;
        total_reqs = (d.total_reqs + r.count) % u64_mod;
      } in
      elim (Bool-cases r.ok) [
        | inl good ↦
            let more : daemon hs d ((ev, evs) ∷ turns) ≡ daemon hs behind turns =
              rw (good, daemon) refl in
            chain d.state r.state d'.state
              (run_one_event_loop-Keeps R same chain hs keep d.state d.channel ev evs)
              (daemon-Keeps turns behind d' (sym more ∙ e))
        | inr bad ↦
            let stop : daemon hs d ((ev, evs) ∷ turns) ≡ none = rw (bad, daemon) refl in
            absurd (none≢some (sym stop ∙ e))
      ]
