-- ===== src/Channel/Sockets/Tests.antt =====
-- A channel on a machine with two addresses: core/bootstrap/channel.hh.
use rlibv.Base.{◌++◌, List, ℕ, ℕ, ◌+◌, ◌≡◌, refl, some, none, false, [], ◌∷◌, ◌==◌}
use rlibv.Channel.{new_recv_channel}
use rlibv.Channel.Sockets.{Os, create_recv}
use rlibv.Channel.Sockets.Bound.{create_recv_unbound}

-- An address is a number, and so is its socket; a socket can be bound to the address `n` alone.
abbrev machine : ℕ → Os
machine n = record {
  AddrInfo = ℕ;
  getaddrinfo = λ host port. some (1 ∷ 2 ∷ []);
  socket = λ p. some (p + 10);
  bind = λ fd p. p == n;
  inet_addr = λ ip. 0;
  inaddr_any = 0;
  dgram_socket = none;
  bind_in = λ fd port addr. false;
}

create_recv_unbound_example :
    (shut : List ℕ) × (create_recv (machine 3) 8888 []
      ≡ some (
          some (record {
            sock_fd = some 12;
            bound = false;
            closed = shut ++ (12 ∷ []);
            channel = new_recv_channel;
          })))
create_recv_unbound_example =
    create_recv_unbound (machine 3) 8888 [] (1 ∷ []) 2 12 refl ((λ fd made. refl), tt)
      (λ fd made. refl) refl
