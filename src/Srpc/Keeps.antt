-- ===== src/Srpc/Keeps.antt =====
-- What every handler keeps, the server of core/bootstrap/srpc.hh keeps, whatever it receives.
use rlibv.Base.{
  ℕ, ◌+◌, ◌≡◌, refl, sym, ◌∙◌, true, false, Option, none, some, List, [], ◌∷◌, ◌==◌, none≢some,
  Option-cases, Bool-cases, inl, inr,
}
use mathlib.Core.Option.{some_inj}
use mathlib.Core.Path.{subst}
use rlibv.Marshal.{ByteBuffer}
use rlibv.MultiMsg.{query_one}
use rlibv.Channel.{Addr, Event, RecvChannel, has_msg, start, next}
use rlibv.Proto.{SReplyHeader}
use rlibv.Srpc.Server.{
  served-cases, Handler, Handlers, find, register_handler, new_factory, call_one, Served, replied,
  undefined, header_reply, full_reply, decode_request, escapes, Request, reply_header, nop, finish,
  handle_request, serve, Ran, loop, run_one_event_loop,
}

module _ {S : Type 0} (R : S → S → Type 0) (same : (s : S) → R s s)
    (chain : (s t u : S) → R s t → R t u → R s u) where
  -- A handler keeps the relation between the states before it and behind it.
  abbrev pub Keeps : Handler S → Type 0
  Keeps f = (s : S) (b : ByteBuffer) → R s (f s b).1

  abbrev pub AllKeep : Handlers S → Type 0
  AllKeep [] = Unit {0}
  AllKeep ((id, f) ∷ hs) = Keeps f × AllKeep hs

  find-Keeps :
      (id : ℕ) (hs : Handlers S) (f : Handler S) → AllKeep hs → find id hs ≡ some f → Keeps f
  unfolding find
  find-Keeps id [] f keep e = absurd (none≢some e)
  find-Keeps id ((j, g) ∷ hs) f keep e = elim (Bool-cases (j == id)) [
    | inl here ↦
        let first : find id ((j, g) ∷ hs) ≡ some g = rw (here, find) refl in
        subst Keeps (some_inj.0 (sym first ∙ e)) keep.0
    | inr there ↦
        let rest : find id ((j, g) ∷ hs) ≡ find id hs = rw (there, find) refl in
        find-Keeps id hs f keep.1 (sym rest ∙ e)
  ]

  pub register_handler-AllKeep :
      (hs : Handlers S) (id : ℕ) (f : Handler S)
      → AllKeep hs
      → Keeps f
      → AllKeep (register_handler hs id f).1
  unfolding register_handler
  register_handler-AllKeep hs id f keep kept = elim (Option-cases (find id hs)) [
    | inl free ↦ rw (free, register_handler) (kept, keep)
    | inr (g, taken) ↦ rw (taken, register_handler) keep
  ]

  pub new_factory-AllKeep : AllKeep new_factory
  unfolding new_factory
  new_factory-AllKeep = (λ s b. same s, tt)

  -- what is served leaves a state that is related
  abbrev Leaves : S → Served S → Type 0
  Leaves s (replied b s') = R s s'
  Leaves s undefined = Unit {0}

  replied_or-Leaves :
      (s t : S) (other : Served S) (o : Option ByteBuffer)
      → R s t
      → Leaves s other
      → Leaves s (elim o [ none ↦ other | some b ↦ replied b t ])
  replied_or-Leaves s t other none r l = l
  replied_or-Leaves s t other (some b) r l = r

  reply_header-Leaves : (h : SReplyHeader) (s t : S) → R s t → Leaves s (reply_header h t)
  reply_header-Leaves h s t r = replied_or-Leaves s t undefined (header_reply h) r tt

  finish-Leaves :
      (id checksum : ℕ) (s : S) (x : Option ByteBuffer × S)
      → R s x.1
      → Leaves s (finish id checksum x)
  unfolding finish
  finish-Leaves id checksum s (none, t) r = reply_header-Leaves _ s t r
  finish-Leaves id checksum s (some reply, t) r =
      replied_or-Leaves s t (nop checksum t) (full_reply _ reply) r (reply_header-Leaves _ s t r)

  module _ (hs : Handlers S) (keep : AllKeep hs) where
    handle_request-Leaves : (s : S) (q : Request) → Leaves s (handle_request hs s q)
    unfolding handle_request call_one
    handle_request-Leaves s q = elim (Option-cases (query_one q.msg 1)) [
      | inl missing ↦ rw (missing, handle_request) (reply_header-Leaves _ s s (same s))
      | inr (parameter, there) ↦ elim (Option-cases (find q.header.id hs)) [
        | inl unknown ↦ rw (there, handle_request) (rw unknown tt)
        | inr (f, known) ↦
            rw (there, handle_request)
              (rw known (
                finish-Leaves q.header.id q.header.checksum s (f s parameter)
                  (find-Keeps q.header.id hs f keep known s parameter)))
      ]
    ]

    serve-Leaves : (s : S) (msg : ByteBuffer) → Leaves s (serve hs s msg)
    unfolding serve
    serve-Leaves s msg = elim (Bool-cases (escapes msg)) [
      | inl out ↦ rw (out, serve) tt
      | inr inside ↦ elim (Option-cases (decode_request msg)) [
        | inl bad ↦ rw (inside, bad, serve) (reply_header-Leaves _ s s (same s))
        | inr (q, decoded) ↦ rw (inside, decoded, serve) (handle_request-Leaves s q)
      ]
    ]

    loop-Keeps :
        (evs : List Event) (s : S) (ch : RecvChannel) (count : ℕ)
        (sent : List (Option Addr × ByteBuffer))
        → R s (loop hs s ch evs count sent).state
    unfolding loop
    loop-Keeps [] s ch count sent = elim (Bool-cases (has_msg ch)) [
      | inl has ↦ rw (has, loop) (last (serve hs s ch.cur_msg) (serve-Leaves s ch.cur_msg))
      | inr idle ↦ rw (idle, loop) (same s)
    ]
      where
        last :
            (x : Served S)
            → Leaves s x
            → R s
                (elim x as (λ _. Ran S) [
                  | undefined ↦ record {
                    ok = false;
                    count = count;
                    state = s;
                    replies = sent;
                    channel = ch;
                    left = [];
                  }
                  | replied b s' ↦ record {
                    ok = true;
                    count = count + 1;
                    state = s';
                    replies = (ch.cur_msg_client, b) ∷ sent;
                    channel = record ch { cur_msg_client = none };
                    left = [];
                  }
                ]).state
        last undefined l = same s
        last (replied b s') l = l
    loop-Keeps (ev ∷ evs) s ch count sent = elim (Bool-cases (has_msg ch)) [
      | inl has ↦
          rw (has, loop)
            (elim (served-cases (serve hs s ch.cur_msg)) [
              | inl u ↦ rw u (same s)
              | inr (b, s', e) ↦ rw e (
                  chain s s' _ (subst (Leaves s) e (serve-Leaves s ch.cur_msg))
                    (loop-Keeps evs s' (next ch ev) (count + 1) ((ch.cur_msg_client, b) ∷ sent)))
            ])
      | inr idle ↦ rw (idle, loop) (same s)
    ]

    -- Whatever a run of the event loop receives, the states before it and behind it are related.
    pub run_one_event_loop-Keeps :
        (s : S) (ch : RecvChannel) (ev : Event) (evs : List Event)
        → R s (run_one_event_loop hs s ch ev evs).state
    unfolding run_one_event_loop
    run_one_event_loop-Keeps s ch ev evs = loop-Keeps evs s (start ch ev) 0 []
