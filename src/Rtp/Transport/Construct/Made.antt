-- ===== src/Rtp/Transport/Construct/Made.antt =====
-- What the constructor of a transport makes, and what goes back to the pool with its sockets.
use rtp_server.Common.{
  ℕ, ◌+◌, ◌%◌, ◌^◌, ◌≡◌, refl, ap, sym, ◌∙◌, subst, inl, inr, Bool-cases, not, ◌&&◌, List, [], ◌∷◌,
  ◌++◌, append_assoc, append-nil, ◌==◌, if◌then◌else◌, Bytes,
}
use rtp_server.Exception.{Result, ok, err, done, threw, Outcome-cases, IsOk}
use rtp_server.Udp.{Kernel, Socket, Net, connect, destroy, reset_port}
use rtp_server.Rtp.Transport.{Transport, parse_transport}
use rtp_server.Rtp.Transport.Bind.{
  Sockets, rtp_net, rtcp_net, put_rtcp, bind_sockets, server_ports_of, PairBound,
  bind_sockets-PairBound,
}
use rtp_server.Rtp.Transport.Construct.{
  Shared, shared_of, sockets_over, destroy_sockets, open_sockets, construct, relocate,
}

-- The port that the destructor of a socket gives back.
abbrev pub given_back : Socket → List ℕ
given_back s =
    if s.socket_fd == 0
    then []
    else if not (s.port == 0) && s.port % 2 == 0
    then s.port ∷ []
    else []

module _ (k : Kernel) where
  destroy-ports : (n : Net k) → (destroy k n).ports ≡ n.ports ++ given_back n.socket
  unfolding destroy reset_port
  destroy-ports n = elim (Bool-cases (n.socket.socket_fd == 0)) [
    | inl unset ↦ rw (destroy, unset) (sym (append-nil n.ports))
    | inr set ↦ elim (Bool-cases (not (n.socket.port == 0) && n.socket.port % 2 == 0)) [
      | inl held ↦ rw (destroy, set, reset_port, held)
      | inr free ↦ rw (destroy, set, reset_port, free) (sym (append-nil n.ports))
    ]
  ]

  -- The two sockets in the order in which they are destroyed.
  abbrev pub pair_given_back : Sockets k → List ℕ
  pair_given_back s = given_back s.rtcp_socket ++ given_back s.rtp_socket

  destroy_sockets-ports :
      (s : Sockets k) → (destroy_sockets k s).ports ≡ s.ports ++ pair_given_back s
  unfolding destroy_sockets
  destroy_sockets-ports s =
      destroy-ports (rtp_net k (put_rtcp k (destroy k (rtcp_net k s)) s))
      ∙ ap (λ ps. ps ++ given_back s.rtp_socket) (destroy-ports (rtcp_net k s))
      ∙ append_assoc s.ports (given_back s.rtcp_socket) (given_back s.rtp_socket)

  -- The ports of the old transports that a vector of tracks destroys when it grows.
  abbrev pub all_given_back : List (Socket × Socket) → List ℕ
  all_given_back [] = []
  all_given_back ((rtp, rtcp) ∷ ts) = (given_back rtcp ++ given_back rtp) ++ all_given_back ts

  pub relocate-ports :
      (ts : List (Socket × Socket)) (s : Shared k)
      → (relocate k ts s).ports ≡ s.ports ++ all_given_back ts
  unfolding relocate
  relocate-ports [] s = sym (append-nil s.ports)
  relocate-ports ((rtp, rtcp) ∷ ts) s =
      let over : Sockets k = sockets_over k rtp rtcp s in
      relocate-ports ts (shared_of k (destroy_sockets k over))
      ∙ ap (λ ps. ps ++ all_given_back ts) (destroy_sockets-ports over)
      ∙ append_assoc s.ports (given_back rtcp ++ given_back rtp) (all_given_back ts)

  -- A success of `connect` changes the state of the kernel alone.
  open_sockets-PairBound :
      (client_addr : Bytes) (second p : ℕ) (ps : List ℕ) (s : Sockets k)
      → s.rtp_socket.port ≡ 0
      → s.ports ≡ p ∷ ps
      → PairBound k p second s (open_sockets k client_addr second s)
  unfolding open_sockets connect server_ports_of
  open_sockets-PairBound client_addr second p ps s free pool =
      elim (Outcome-cases (bind_sockets k second s)) [
        | inl (s', bound) ↦
            let b : PairBound k p second s (done s') =
              subst (PairBound k p second s) bound
                (bind_sockets-PairBound k second p ps s free pool) in
            elim (Bool-cases (k.connect_address s'.rtp_socket.socket_fd client_addr s'.kernel).0) [
              | inl connected ↦ rw (open_sockets, bound, connect, connected) b
              | inr refused ↦
                  rw (open_sockets, bound, connect, refused) (inl (ap (λ (x : ℕ × ℕ). x.0) b))
            ]
        | inr (e, s', failed) ↦
            let b : PairBound k p second s (threw e s') =
              subst (PairBound k p second s) failed
                (bind_sockets-PairBound k second p ps s free pool) in
            rw (open_sockets, failed) b
      ]

  -- What a transport that was made stands for: the request's parameters, and the ports it is bound to.
  abbrev pub IsMade : Bytes → Socket → ℕ → Transport × Sockets k → Type 0
  IsMade value rtcp p (t, s) =
      (asked : Transport) × (parse_transport value ≡ ok asked)
      × (t ≡ record asked {
        server_ports = record {
          first = p;
          second = if asked.client_ports.second == 0 then rtcp.port else (p + 1) % 2 ^ 16;
        };
      })
      × (server_ports_of k s ≡ (t.server_ports.first, t.server_ports.second))

  -- Where the first socket's memory held port 0 and `p` is in front of the pool: if the constructor
  -- succeeds, the transport is that of the header, with `p` and, where the client gave a second
  -- port, the next one (modulo 2 ^ 16) as the server's ports, which are those of its sockets; where
  -- the client gave none, the second port is what the memory of the second socket held.
  pub construct-IsMade :
      (rtp rtcp : Socket) (client_addr value : Bytes) (s : Shared k) (p : ℕ) (ps : List ℕ)
      → rtp.port ≡ 0
      → s.ports ≡ p ∷ ps
      → IsOk (IsMade value rtcp p) (construct k rtp rtcp client_addr value s).0
  unfolding construct
  construct-IsMade rtp rtcp client_addr value s p ps free pool = parsed (parse_transport value) refl
    where
      over : Sockets k
      over = sockets_over k rtp rtcp s

      opened :
          (t : Transport)
          → parse_transport value ≡ ok t
          → IsOk (IsMade value rtcp p) (construct k rtp rtcp client_addr value s).0
      opened t e = elim (Outcome-cases (open_sockets k client_addr t.client_ports.second over)) [
        | inl (s', run) ↦
            let b : PairBound k p t.client_ports.second over (done s') =
              subst (PairBound k p t.client_ports.second over) run
                (open_sockets-PairBound client_addr t.client_ports.second p ps over free pool) in
            rw (construct, e, run)
              (
                t,
                e,
                ap (λ (x : ℕ × ℕ). record t { server_ports = record { first = x.0; second = x.1 } })
                    b,
                refl,
              )
        | inr (x, s', run) ↦ rw (construct, e, run) tt
      ]

      parsed :
          (r : Result Transport)
          → parse_transport value ≡ r
          → IsOk (IsMade value rtcp p) (construct k rtp rtcp client_addr value s).0
      parsed (ok t) e = opened t e
      parsed (err x) e = rw (construct, e) tt
