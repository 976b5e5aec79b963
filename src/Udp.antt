-- ===== src/Udp.antt =====
-- The pool of server ports and `UDP::Socket` of src/Server/UDP.h and src/Server/UDP.cpp.
-- The kernel's calls are a parameter; the lock of the pool makes each access atomic.
pub mod Ports
mod Tests
use rtp_server.Common.{
  ℕ, ◌+◌, ◌-◌, ◌%◌, ◌^◌, Bool, true, false, not, ◌&&◌, Option, none, some, List, [], ◌∷◌, ◌++◌,
  ◌==◌, if◌then◌else◌, Bytes,
}
use rtp_server.Exception.{
  Error, socket_failed, address_failed, connect_failed, Outcome, done, threw,
}

-- The ports that `InitPorts` pushes.
abbrev pub initial_ports : List ℕ
initial_ports =
    5004 ∷ 5006 ∷ 5008 ∷ 5010 ∷ 5012 ∷ 5014 ∷ 5016 ∷ 5018 ∷ 5020 ∷ 5022 ∷ 5024 ∷ 5026 ∷ 5028 ∷ 5030
    ∷ 5032 ∷ 5034 ∷ []

-- `get_even_port`: 0 where the pool is empty.
unfoldable pub get_even_port : List ℕ → ℕ × List ℕ
get_even_port [] = (0, [])
get_even_port (p ∷ ports) = (p, ports)

unfoldable pub insert_even_port : ℕ → List ℕ → List ℕ
insert_even_port p ports = ports ++ p ∷ []

-- The system calls, over a state of the kernel. `open_socket` yields a descriptor or fails; the
-- others say whether they succeed.
pub record Kernel : Type 1 where
  pub State : Type 0
  pub open_socket : State → Option ℕ × State
  pub bind_address : ℕ → ℕ → State → Bool × State
  pub connect_address : ℕ → Bytes → State → Bool × State
  pub close_socket : ℕ → State → State

-- -1, as the bit pattern of an `int`.
abbrev pub no_descriptor : ℕ
no_descriptor = 2 ^ 32 - 1

-- `Socket() {}` leaves both members as the memory was.
pub record Socket : Type 0 where
  pub socket_fd : ℕ
  pub port : ℕ

module _ (k : Kernel) where
  -- A socket with what it shares with all others.
  pub record Net : Type 0 where
    pub socket : Socket
    pub ports : List ℕ
    pub kernel : k.State

  unfoldable pub reset_port : Net → Net
  unfolding insert_even_port
  reset_port n =
      if not (n.socket.port == 0) && n.socket.port % 2 == 0
      then record n {
        socket = record n.socket { port = 0 };
        ports = insert_even_port n.socket.port n.ports;
      }
      else n

  -- `bind(port)` behind `reset_port`.
  unfoldable pub bind_fresh : ℕ → Net → Outcome Net
  bind_fresh port n =
      let (fd, s₁) = k.open_socket n.kernel in
      elim fd [
        | none ↦
            threw socket_failed
              (record n { socket = record n.socket { socket_fd = no_descriptor }; kernel = s₁ })
        | some fd ↦
            let (bound, s₂) = k.bind_address fd port s₁ in
            let n' = record n { socket = record n.socket { socket_fd = fd }; kernel = s₂ } in
            if bound
            then done (record n' { socket = record { socket_fd = fd; port = port } })
            else threw address_failed n'
      ]

  -- `Socket::bind(port)`. Where it returns, it returns `true`.
  unfoldable pub bind_port : ℕ → Net → Outcome Net
  unfolding reset_port bind_fresh
  bind_port port n = bind_fresh port (reset_port n)

  -- `Socket::bind()`
  unfoldable pub bind : Net → Outcome Net
  unfolding get_even_port bind_port
  bind n = let (port, ports) = get_even_port n.ports in bind_port port (record n { ports = ports })

  unfoldable pub connect : Bytes → Net → Outcome Net
  connect client_addr n =
      let (connected, s) = k.connect_address n.socket.socket_fd client_addr n.kernel in
      if connected
      then done (record n { kernel = s })
      else threw connect_failed (record n { kernel = s })

  -- `~Socket`
  unfoldable pub destroy : Net → Net
  unfolding reset_port
  destroy n =
      if n.socket.socket_fd == 0
      then n
      else reset_port (record n { kernel = k.close_socket n.socket.socket_fd n.kernel })
