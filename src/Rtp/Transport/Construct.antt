-- ===== src/Rtp/Transport/Construct.antt =====
-- The constructor and the destructor of `RTPTransport`: the header is parsed, the sockets are bound
-- and connected. Where the body throws, the members are destroyed, the last one first.
pub mod Made
use rtp_server.Common.{ℕ, ◌==◌, Bool, true, false, List, [], ◌∷◌, Bytes}
use rtp_server.Exception.{Error, Result, ok, err, Outcome, done, threw}
use rtp_server.Udp.{Kernel, Socket, Net, connect, destroy}
use rtp_server.Rtp.Transport.{PortPair, Transport, parse_transport}
use rtp_server.Rtp.Transport.Bind.{
  Sockets, rtp_net, rtcp_net, put_rtp, put_rtcp, bind_sockets, server_ports_of,
}

module _ (k : Kernel) where
  -- What all sockets share.
  pub record Shared : Type 0 where
    pub ports : List ℕ
    pub kernel : k.State

  abbrev pub shared_of : Sockets k → Shared
  shared_of s = record { ports = s.ports; kernel = s.kernel }

  -- Two sockets over what is shared.
  abbrev pub sockets_over : Socket → Socket → Shared → Sockets k
  sockets_over rtp rtcp s = record {
    rtp_socket = rtp;
    rtcp_socket = rtcp;
    ports = s.ports;
    kernel = s.kernel;
  }

  -- `~RTPTransport`
  unfoldable pub destroy_sockets : Sockets k → Sockets k
  destroy_sockets s =
      let s' = put_rtcp k (destroy k (rtcp_net k s)) s in put_rtp k (destroy k (rtp_net k s')) s'

  -- `bind()` and `connect`, on the second port of the client.
  unfoldable pub open_sockets : Bytes → ℕ → Sockets k → Outcome (Sockets k)
  open_sockets client_addr second s = elim (bind_sockets k second s) [
    | threw e s' ↦ threw e s'
    | done s' ↦ elim (connect k client_addr (rtp_net k s')) [
      | threw e n ↦ threw e (put_rtp k n s')
      | done n ↦ done (put_rtp k n s')
    ]
  ]

  -- The sockets are not initialised: `rtp` and `rtcp` are what their memory holds.
  unfoldable pub construct :
      Socket → Socket → Bytes → Bytes → Shared → Result (Transport × Sockets k) × Shared
  construct rtp rtcp client_addr value s = elim (parse_transport value) [
    | err e ↦ (err e, shared_of (destroy_sockets (sockets_over rtp rtcp s)))
    | ok t ↦ elim (open_sockets client_addr t.client_ports.second (sockets_over rtp rtcp s)) [
      | threw e s' ↦ (err e, shared_of (destroy_sockets s'))
      | done s' ↦ (
        ok (
          record t {
            server_ports = record {
              first = (server_ports_of k s').0;
              second = (server_ports_of k s').1;
            };
          },
          s',
        ),
        shared_of s',
      )
    ]
  ]

  -- A `std::vector` of tracks that grows moves each track to a new place and destroys the old one.
  -- `Socket` has a destructor and no move constructor, so its members are copied. Each pair is the
  -- two sockets of an old transport.
  unfoldable pub relocate : List (Socket × Socket) → Shared → Shared
  relocate [] s = s
  relocate ((rtp, rtcp) ∷ ts) s =
      relocate ts (shared_of (destroy_sockets (sockets_over rtp rtcp s)))
