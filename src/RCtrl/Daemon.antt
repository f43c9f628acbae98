-- ===== src/RCtrl/Daemon.antt =====
-- core/rctrl.hh: the daemon's thread, which runs the event loop until it is stopped.
--
-- What a turn of the thread receives is a first event and the list of those behind it. The list of the turns
-- ends where the thread sees that `running` is false.
pub mod Keeps
mod Tests
use rlibv.Base.{
  none≢some, bind_some, ℕ, ◌+◌, ◌%◌, ◌≡◌, refl, sym, ap, ◌∙◌, Bool, true, false, Option, none, some,
  List, [], ◌∷◌, ◌++◌, length, map, append_assoc, append-nil, if◌then◌else◌, ◌>>=◌, u64_mod, arith,
  ◌<◌, ◌⊎◌, inl, inr,
}
use mathlib.Core.Option.{some_inj}
use mathlib.Core.Path.{subst}
use rlibv.Marshal.{ByteBuffer}
use rlibv.Channel.{Addr, Event, quiet, RecvChannel}
use rlibv.Srpc.Server.{
  served-cases, Handlers, Ran, run_one_event_loop, Served, serve, replied, undefined,
}
use rlibv.Srpc.EventLoop.{
  Message, event, filled, Answered, serve_all, run_one_event_loop-serve_all, serve_all-replied,
}

-- `running`, behind `start_daemon`, and whether the thread was created: the flag is set in any case.
unfoldable pub start_daemon : Bool → Bool × Bool
start_daemon created = (true, created)

-- `running` behind `stop_daemon`, and whether the thread is joined
unfoldable pub stop_daemon : Bool → Bool × Bool
stop_daemon running = if running then (false, true) else (false, false)

-- What the thread has at the end, the last reply first.
pub record Stopped (S : Type 0) : Type 0 where
  pub state : S
  pub channel : RecvChannel
  pub replies : List (Option Addr × ByteBuffer)
  pub total_reqs : ℕ

module _ {S : Type 0} (hs : Handlers S) where
  -- `none` is an undefined behaviour of a handler's call.
  unfoldable pub daemon : Stopped S → List (Event × List Event) → Option (Stopped S)
  daemon d [] = some d
  daemon d ((ev, evs) ∷ turns) =
      let r = run_one_event_loop hs d.state d.channel ev evs in
      let more =
        daemon
          (record {
            state = r.state;
            channel = r.channel;
            replies = r.replies ++ d.replies;
            total_reqs = (d.total_reqs + r.count) % u64_mod;
          })
          turns in
      if r.ok then more else none

  -- a turn that is brought a message and those behind it, and then none
  abbrev pub turn : Message × List Message → Event × List Event
  turn t = (event t.0, map event t.1 ++ (quiet ∷ []))

  -- the messages of all turns, in their order
  abbrev pub messages : List (Message × List Message) → List Message
  messages [] = []
  messages (t ∷ ts) = (t.0 ∷ t.1) ++ messages ts

  abbrev behind : List (Option Addr × ByteBuffer) → Answered S → Answered S
  behind base a = record a { replies = a.replies ++ base }

  -- Serving goes on from what was served first.
  serve_all-append :
      (s : S) (old : ByteBuffer) (sent : List (Option Addr × ByteBuffer)) (xs ys : List Message)
      → serve_all hs s old sent (xs ++ ys)
        ≡ (serve_all hs s old sent xs >>= λ a. serve_all hs a.state a.buffer a.replies ys)
  unfolding serve_all
  serve_all-append s old sent [] ys = refl
  serve_all-append s old sent (x ∷ xs) ys = elim (served-cases (serve hs s (filled old x.1))) [
    | inl u ↦ rw (u, serve_all) refl
    | inr (b, s', e) ↦
        rw (e, serve_all) (serve_all-append s' (filled old x.1) ((some x.0, b) ∷ sent) xs ys)
  ]

  -- The replies that were there before stay behind the new ones.
  serve_all-behind :
      (s : S) (old : ByteBuffer) (sent base : List (Option Addr × ByteBuffer)) (ms : List Message)
      → serve_all hs s old (sent ++ base) ms
        ≡ (serve_all hs s old sent ms >>= λ a. some (behind base a))
  unfolding serve_all
  serve_all-behind s old sent base [] = refl
  serve_all-behind s old sent base (m ∷ ms) = elim (served-cases (serve hs s (filled old m.1))) [
    | inl u ↦ rw (u, serve_all) refl
    | inr (b, s', e) ↦
        rw (e, serve_all) (serve_all-behind s' (filled old m.1) ((some m.0, b) ∷ sent) base ms)
  ]

  -- the daemon with an idle channel
  abbrev pub stopped : S → ByteBuffer → List (Option Addr × ByteBuffer) → ℕ → Stopped S
  stopped s buffer replies total = record {
    state = s;
    channel = record { cur_msg_client = none; cur_msg = buffer };
    replies = replies;
    total_reqs = total;
  }

  daemon-turn :
      (s : S) (buffer : ByteBuffer) (replies : List (Option Addr × ByteBuffer)) (total : ℕ)
      (m : Message) (ms : List Message) (turns : List (Event × List Event)) (a : Answered S)
      → serve_all hs s buffer [] (m ∷ ms) ≡ some a
      → daemon (stopped s buffer replies total) (turn (m, ms) ∷ turns)
        ≡ daemon
            (stopped a.state a.buffer (a.replies ++ replies) ((total + length (m ∷ ms)) % u64_mod))
            turns
  unfolding daemon
  daemon-turn s buffer replies total m ms turns a e =
      rw
        (
          run_one_event_loop-serve_all hs s (record { cur_msg_client = none; cur_msg = buffer }) m
              ms [] a refl e,
          daemon,
        )
        refl

  length-append : (xs ys : List Message) → length (xs ++ ys) ≡ length xs + length ys
  length-append [] ys = omega arith
  length-append (x ∷ xs) ys = omega (arith, length-append xs ys)

  daemon-stopped :
      (ts : List (Message × List Message)) (s : S) (buffer : ByteBuffer)
      (replies : List (Option Addr × ByteBuffer)) (total : ℕ) (a : Answered S)
      → total < u64_mod
      → serve_all hs s buffer replies (messages ts) ≡ some a
      → daemon (stopped s buffer replies total) (map turn ts)
        ≡ some (stopped a.state a.buffer a.replies ((total + length (messages ts)) % u64_mod))
  unfolding daemon serve_all
  daemon-stopped [] s buffer replies total a small e =
      let same : (total + 0) % u64_mod ≡ total = omega (arith, small) in
      rw same
        (ap (λ (a : Answered S). some (stopped a.state a.buffer a.replies total)) (some_inj.0 e))
  daemon-stopped (t ∷ ts) s buffer replies total a small e =
      let (a₁, e₁, e₂) =
        bind_some (serve_all hs s buffer replies (t.0 ∷ t.1)) _ a
          (sym (serve_all-append s buffer replies (t.0 ∷ t.1) (messages ts)) ∙ e) in
      let (a₀, e₀, same) =
        bind_some (serve_all hs s buffer [] (t.0 ∷ t.1)) _ a₁
          (sym (serve_all-behind s buffer [] replies (t.0 ∷ t.1)) ∙ e₁) in
      let rest : serve_all hs a₀.state a₀.buffer (a₀.replies ++ replies) (messages ts) ≡ some a =
        subst (λ (b : Answered S). serve_all hs b.state b.buffer b.replies (messages ts) ≡ some a)
          (sym (some_inj.0 same)) e₂ in
      let sum : ((total + length (t.0 ∷ t.1)) % u64_mod + length (messages ts)) % u64_mod
          ≡ (total + length (messages (t ∷ ts))) % u64_mod =
        omega (arith, length-append t.1 (messages ts)) in
      daemon-turn s buffer replies total t.0 t.1 (map turn ts) a₀ e₀
      ∙ daemon-stopped ts a₀.state a₀.buffer (a₀.replies ++ replies)
          ((total + length (t.0 ∷ t.1)) % u64_mod) a (omega arith) rest
      ∙ ap (λ n. some (stopped a.state a.buffer a.replies n)) sum

  pub daemon-serve_all :
      (ts : List (Message × List Message)) (s : S) (buffer : ByteBuffer) (a : Answered S)
      → serve_all hs s buffer [] (messages ts) ≡ some a
      → daemon (stopped s buffer [] 0) (map turn ts)
        ≡ some (stopped a.state a.buffer a.replies (length (messages ts) % u64_mod))
  daemon-serve_all ts s buffer a e =
      daemon-stopped ts s buffer [] 0 a (omega arith) e
      ∙ ap (λ n. some (stopped a.state a.buffer a.replies n)) (omega arith)
