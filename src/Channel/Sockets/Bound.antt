-- ===== src/Channel/Sockets/Bound.antt =====
-- Which socket a `RecvChannel` of core/bootstrap/channel.hh gets.
use rlibv.Base.{
  ℕ, ◌≡◌, refl, sym, ap, ◌∙◌, append_assoc, Bool, false, Option, none, some, List, [], ◌∷◌, ◌++◌,
  Option-cases, inl, inr,
}
use rlibv.Marshal.{ByteBuffer}
use rlibv.Channel.{new_recv_channel}
use rlibv.IpName.{int_to_string}
use rlibv.Channel.Sockets.{Os, bind_first, new_recv, create_recv}

module _ (os : Os) where
  -- No socket can be bound to the address.
  abbrev pub Refused : os.AddrInfo → Type 0
  Refused p = (fd : ℕ) → os.socket p ≡ some fd → os.bind fd p ≡ false

  abbrev pub AllRefused : List os.AddrInfo → Type 0
  AllRefused [] = Unit
  AllRefused (p ∷ ps) = Refused p × AllRefused ps

  -- what a turn leaves open, and what it closes, whose address is refused
  abbrev shuts : Option ℕ → List ℕ
  shuts none = []
  shuts (some fd) = fd ∷ []

  abbrev closing : List ℕ → Option ℕ × Bool × List ℕ → Option ℕ × Bool × List ℕ
  closing fds (last, bound, closed) = (last, bound, fds ++ closed)

  bind_first-Refused :
      (last : Option ℕ) (p : os.AddrInfo) (ps : List os.AddrInfo)
      → Refused p
      → bind_first os last (p ∷ ps) ≡ closing (shuts (os.socket p)) (bind_first os (os.socket p) ps)
  unfolding bind_first
  bind_first-Refused last p ps h = elim (Option-cases (os.socket p)) [
    | inl no_socket ↦ rw (no_socket, bind_first) refl
    | inr (fd, made) ↦ rw (made, bind_first) (rw (h fd made) refl)
  ]

  bind_first-AllRefused :
      (ps rest : List os.AddrInfo) (last : Option ℕ)
      → AllRefused ps
      → (before : Option ℕ) × (shut : List ℕ) × (bind_first os last (ps ++ rest)
          ≡ closing shut (bind_first os before rest))
  bind_first-AllRefused [] rest last h = (last, [], refl)
  bind_first-AllRefused (p ∷ ps) rest last h =
      let (before, shut, e) = bind_first-AllRefused ps rest (os.socket p) h.1 in
      (
        before,
        shuts (os.socket p) ++ shut,
        bind_first-Refused last p (ps ++ rest) h.0
            ∙ ap (closing (shuts (os.socket p))) e
            ∙ ap (λ l. ((bind_first os before rest).0, (bind_first os before rest).1, l))
                (sym (append_assoc (shuts (os.socket p)) shut (bind_first os before rest).2)),
      )

  create_recv-listed :
      (port : ℕ) (h : ByteBuffer) (ps : List os.AddrInfo) (fd : ℕ) (bound : Bool) (closed : List ℕ)
      → os.getaddrinfo none (int_to_string port) ≡ some ps
      → bind_first os none ps ≡ (some fd, bound, closed)
      → create_recv os port h
        ≡ some (
            some (record {
              sock_fd = some fd;
              bound = bound;
              closed = closed;
              channel = new_recv_channel;
            }))
  unfolding create_recv new_recv
  create_recv-listed port h ps fd bound closed listed e = rw (listed, create_recv) (rw e refl)

  -- Where all addresses are refused, and for the last one a socket can be made, the caller gets a channel
  -- all the same, with this socket, which is not bound, and which the constructor has closed as its last one.
  pub create_recv_unbound :
      (port : ℕ) (h : ByteBuffer) (ps : List os.AddrInfo) (p : os.AddrInfo) (fd : ℕ)
      → os.getaddrinfo none (int_to_string port) ≡ some (ps ++ (p ∷ []))
      → AllRefused ps
      → Refused p
      → os.socket p ≡ some fd
      → (shut : List ℕ) × (create_recv os port h
          ≡ some (
              some (record {
                sock_fd = some fd;
                bound = false;
                closed = shut ++ (fd ∷ []);
                channel = new_recv_channel;
              })))
  unfolding bind_first
  create_recv_unbound port h ps p fd listed refused last made =
      let (before, shut, e) = bind_first-AllRefused ps (p ∷ []) none refused in
      (
        shut,
        create_recv-listed port h (ps ++ (p ∷ [])) fd false (shut ++ (fd ∷ [])) listed
            (e ∙ ap (closing shut) (bind_first-Refused before p [] last ∙ rw made refl)),
      )
