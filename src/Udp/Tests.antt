-- ===== src/Udp/Tests.antt =====
-- The theorems on the pool of ports, with a kernel that refuses every address.
use rtp_server.Common.{ℕ, ◌+◌, ◌≡◌, refl, not, ◌==◌, true, some, [], ◌∷◌, arith, All}
use rtp_server.Exception.{threw, address_failed}
use rtp_server.Udp.{Kernel, Net, bind, bind_port, destroy}
use rtp_server.Udp.Ports.{IsRtpPort, state_of, Returned, pool-IsRtpPort, bind-Returned}

-- Descriptors are counted up from 3; an address is refused where the port is `busy`.
abbrev counting : ℕ → Kernel
counting busy = record {
  State = ℕ;
  open_socket = λ n. (some n, n + 1);
  bind_address = λ fd port n. (not (port == busy), n);
  connect_address = λ fd addr n. (true, n);
  close_socket = λ fd n. n;
}

abbrev fresh_net : Net (counting 0)
fresh_net = record {
  socket = record { socket_fd = 0; port = 0 };
  ports = 5004 ∷ 5006 ∷ [];
  kernel = 3;
}

abbrev two_ports : All IsRtpPort (5004 ∷ 5006 ∷ [])
two_ports = ((refl, omega arith), ((refl, omega arith), tt))

pool_example :
    All IsRtpPort (state_of {k = counting 0} (bind (counting 0) fresh_net)).ports
    × All IsRtpPort (state_of {k = counting 0} (bind_port (counting 0) 5008 fresh_net)).ports
    × All IsRtpPort (destroy (counting 0) fresh_net).ports
pool_example = pool-IsRtpPort (counting 0) 5008 fresh_net two_ports

abbrev no_socket : Net (counting 5004)
no_socket = record {
  socket = record { socket_fd = 0; port = 0 };
  ports = 5004 ∷ 5006 ∷ [];
  kernel = 3;
}

bind_refused :
    bind (counting 5004) no_socket
    ≡ threw address_failed (record no_socket {
      socket = record { socket_fd = 3; port = 0 };
      ports = 5006 ∷ [];
      kernel = 4;
    })
unfolding bind
bind_refused = refl

bind-Returned_example : Returned (counting 5004) 5004 (5006 ∷ []) (bind (counting 5004) no_socket)
bind-Returned_example =
    bind-Returned (counting 5004) no_socket 5004 (5006 ∷ []) refl refl (refl, omega arith)
      (rw bind_refused (omega arith))
