-- ===== src/Srpc/EventLoop.antt =====
-- The event loop of core/bootstrap/srpc.hh: a run serves the datagrams one after the other.
use rlibv.Base.{
  ℕ, ◌+◌, ◌≡◌, refl, sym, ap, ◌∙◌, Option, none, some, List, [], ◌∷◌, ◌++◌, length, take, map,
  arith, none≢some, inl, inr, true,
}
use mathlib.Core.Option.{some_inj}
use rlibv.Marshal.{ByteBuffer, memcpy}
use rlibv.Channel.{Addr, Event, datagram, quiet, try_recv, RecvChannel, has_msg, start, next}
use rlibv.Srpc.Server.{
  served-cases, Handlers, serve, replied, undefined, Ran, loop, run_one_event_loop,
}

-- who asked, and the bytes
abbrev pub Message : Type 0
Message = Addr × ByteBuffer

abbrev pub event : Message → Event
event m = datagram m.0 m.1

-- the receiving buffer with a message in it
abbrev pub filled : ByteBuffer → ByteBuffer → ByteBuffer
filled old bytes = memcpy old (take (length old) bytes)

-- What serving messages in their order leaves: the state behind the handlers, the buffer, and the replies, with
-- the last one first. It is none where a behaviour is undefined.
pub record Answered (S : Type 0) : Type 0 where
  pub state : S
  pub buffer : ByteBuffer
  pub replies : List (Option Addr × ByteBuffer)

module _ {S : Type 0} (hs : Handlers S) where
  unfoldable pub serve_all :
      S → ByteBuffer → List (Option Addr × ByteBuffer) → List Message → Option (Answered S)
  serve_all s old sent [] = some (record { state = s; buffer = old; replies = sent })
  serve_all s old sent (m ∷ ms) = elim (serve hs s (filled old m.1)) [
    | undefined ↦ none
    | replied b s' ↦ serve_all s' (filled old m.1) ((some m.0, b) ∷ sent) ms
  ]

  abbrev holding : Message → ByteBuffer → RecvChannel
  holding m old = record { cur_msg_client = some m.0; cur_msg = filled old m.1 }

  abbrev idle : ByteBuffer → RecvChannel
  idle buffer = record { cur_msg_client = none; cur_msg = buffer }

  next_datagram : (ch : RecvChannel) (m : Message) → next ch (event m) ≡ holding m ch.cur_msg
  unfolding next start has_msg try_recv
  next_datagram ch m = refl

  next_quiet : (ch : RecvChannel) → next ch quiet ≡ idle ch.cur_msg
  unfolding next start has_msg try_recv
  next_quiet ch = refl

  loop-replied :
      (s s' : S) (old b : ByteBuffer) (sent : List (Option Addr × ByteBuffer)) (count : ℕ)
      (m : Message) (ev : Event) (evs : List Event)
      → serve hs s (filled old m.1) ≡ replied b s'
      → loop hs s (holding m old) (ev ∷ evs) count sent
        ≡ loop hs s' (next (holding m old) ev) evs (count + 1) ((some m.0, b) ∷ sent)
  unfolding loop has_msg
  loop-replied s s' old b sent count m ev evs e = rw (e, loop) refl

  loop-idle :
      (s : S) (buffer : ByteBuffer) (sent : List (Option Addr × ByteBuffer)) (count : ℕ)
      (evs : List Event)
      → loop hs s (idle buffer) evs count sent ≡ record {
        ok = true;
        count = count;
        state = s;
        replies = sent;
        channel = idle buffer;
        left = evs;
      }
  unfolding loop has_msg
  loop-idle s buffer sent count [] = refl
  loop-idle s buffer sent count (ev ∷ evs) = refl

  pub serve_all-replied :
      (s s' : S) (old b : ByteBuffer) (sent : List (Option Addr × ByteBuffer)) (m : Message)
      (ms : List Message)
      → serve hs s (filled old m.1) ≡ replied b s'
      → serve_all s old sent (m ∷ ms) ≡ serve_all s' (filled old m.1) ((some m.0, b) ∷ sent) ms
  unfolding serve_all
  serve_all-replied s s' old b sent m ms e = rw (e, serve_all) refl

  serve_all-undefined :
      (s : S) (old : ByteBuffer) (sent : List (Option Addr × ByteBuffer)) (m : Message)
      (ms : List Message)
      → serve hs s (filled old m.1) ≡ undefined
      → serve_all s old sent (m ∷ ms) ≡ none
  unfolding serve_all
  serve_all-undefined s old sent m ms e = rw (e, serve_all) refl

  -- what a run that the channel's silence ends leaves
  abbrev ended : ℕ → Answered S → List Event → Ran S
  ended count a more = record {
    ok = true;
    count = count;
    state = a.state;
    replies = a.replies;
    channel = idle a.buffer;
    left = more;
  }

  loop-serve_all :
      (s : S) (old : ByteBuffer) (sent : List (Option Addr × ByteBuffer)) (count : ℕ) (m : Message)
      (ms : List Message) (more : List Event) (a : Answered S)
      → serve_all s old sent (m ∷ ms) ≡ some a
      → loop hs s (holding m old) (map event ms ++ (quiet ∷ more)) count sent
        ≡ ended (count + length (m ∷ ms)) a more
  unfolding serve_all
  loop-serve_all s old sent count m [] more a e =
      elim (served-cases (serve hs s (filled old m.1))) [
        | inl u ↦ absurd (none≢some (sym (serve_all-undefined s old sent m [] u) ∙ e))
        | inr (b, s', served) ↦
            loop-replied s s' old b sent count m quiet more served
            ∙ ap (λ ch. loop hs s' ch more (count + 1) ((some m.0, b) ∷ sent))
                (next_quiet (holding m old))
            ∙ loop-idle s' (filled old m.1) ((some m.0, b) ∷ sent) (count + 1) more
            ∙ ap (λ (a : Answered S). ended (count + 1) a more)
                (some_inj.0 (sym (serve_all-replied s s' old b sent m [] served) ∙ e))
      ]
  loop-serve_all s old sent count m (m' ∷ ms) more a e =
      elim (served-cases (serve hs s (filled old m.1))) [
        | inl u ↦ absurd (none≢some (sym (serve_all-undefined s old sent m (m' ∷ ms) u) ∙ e))
        | inr (b, s', served) ↦
            loop-replied s s' old b sent count m (event m') (map event ms ++ (quiet ∷ more)) served
            ∙ ap
                (λ ch.
                  loop hs s' ch (map event ms ++ (quiet ∷ more)) (count + 1) ((some m.0, b) ∷ sent))
                (next_datagram (holding m old) m')
            ∙ loop-serve_all s' (filled old m.1) ((some m.0, b) ∷ sent) (count + 1) m' ms more a
                (sym (serve_all-replied s s' old b sent m (m' ∷ ms) served) ∙ e)
            ∙ ap (λ n. ended n a more) (omega arith)
      ]

  -- A run on an idle channel that is brought datagrams, and then none for once, serves all of them in their
  -- order, where no behaviour is undefined: it counts them, leaves the state behind the last handler and
  -- the last message in the buffer, replies to each sender, and does not touch what comes behind the pause.
  pub run_one_event_loop-serve_all :
      (s : S) (ch : RecvChannel) (m : Message) (ms : List Message) (more : List Event)
      (a : Answered S)
      → ch.cur_msg_client ≡ none
      → serve_all s ch.cur_msg [] (m ∷ ms) ≡ some a
      → run_one_event_loop hs s ch (event m) (map event ms ++ (quiet ∷ more))
        ≡ ended (length (m ∷ ms)) a more
  unfolding run_one_event_loop start has_msg try_recv
  run_one_event_loop-serve_all s ch m ms more a no_msg e =
      rw no_msg
        (loop-serve_all s ch.cur_msg [] 0 m ms more a e ∙ ap (λ n. ended n a more) (omega arith))
