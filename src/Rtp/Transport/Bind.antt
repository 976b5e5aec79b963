-- ===== src/Rtp/Transport/Bind.antt =====
-- The sockets of a transport: `RTPTransport::bind` and the end of the constructor. The two sockets
-- share the pool of ports and the kernel. `Socket::bind` returns `true` or throws, so the loop of
-- `bind` is left at its first test, and its body has no counterpart.
use rtp_server.Common.{
  ℕ, ◌+◌, ◌%◌, ◌^◌, ◌≡◌, refl, ap, ◌∙◌, subst, ◌⊎◌, inl, inr, Bool-cases, List, ◌∷◌, ◌==◌,
  if◌then◌else◌,
}
use rtp_server.Exception.{Outcome, done, threw, Outcome-cases}
use rtp_server.Udp.{Kernel, Socket, Net, reset_port, bind_port, bind}
use rtp_server.Udp.Ports.{Bound, bind_fresh-Bound, bind-bind_fresh}

module _ (k : Kernel) where
  pub record Sockets : Type 0 where
    pub rtp_socket : Socket
    pub rtcp_socket : Socket
    pub ports : List ℕ
    pub kernel : k.State

  abbrev pub rtp_net : Sockets → Net k
  rtp_net s = record { socket = s.rtp_socket; ports = s.ports; kernel = s.kernel }

  abbrev pub rtcp_net : Sockets → Net k
  rtcp_net s = record { socket = s.rtcp_socket; ports = s.ports; kernel = s.kernel }

  abbrev pub put_rtp : Net k → Sockets → Sockets
  put_rtp n s = record s { rtp_socket = n.socket; ports = n.ports; kernel = n.kernel }

  abbrev pub put_rtcp : Net k → Sockets → Sockets
  put_rtcp n s = record s { rtcp_socket = n.socket; ports = n.ports; kernel = n.kernel }

  -- The second operand of the loop's test, on the second port of the client.
  unfoldable pub bind_rtcp : ℕ → Sockets → Outcome Sockets
  bind_rtcp second s =
      if second == 0
      then done s
      else elim (bind_port k ((s.rtp_socket.port + 1) % 2 ^ 16) (rtcp_net s)) [
        | done n ↦ done (put_rtcp n s)
        | threw e n ↦ threw e (put_rtcp n s)
      ]

  unfoldable pub bind_sockets : ℕ → Sockets → Outcome Sockets
  bind_sockets second s = elim (bind k (rtp_net s)) [
    | threw e n ↦ threw e (put_rtp n s)
    | done n ↦ bind_rtcp second (put_rtp n s)
  ]

  -- `server_ports`
  unfoldable pub server_ports_of : Sockets → ℕ × ℕ
  server_ports_of s = (s.rtp_socket.port, s.rtcp_socket.port)

  -- The sockets behind `bind`, where `p` was in front of the pool: the second is the next port, or
  -- untouched where the client gave no second port.
  abbrev pub PairBound : ℕ → ℕ → Sockets → Outcome Sockets → Type 0
  PairBound p second s (done s') =
      (server_ports_of s' ≡ (p, if second == 0 then s.rtcp_socket.port else (p + 1) % 2 ^ 16))
  PairBound p second s (threw e s') =
      (s'.rtp_socket.port ≡ p) ⊎ (s'.rtp_socket.port ≡ s.rtp_socket.port)

  bind_port-port : (p : ℕ) (n n' : Net k) → bind_port k p n ≡ done n' → n'.socket.port ≡ p
  unfolding bind_port
  bind_port-port p n n' e =
      let b : Bound k p (reset_port k n) (done n') =
        subst (Bound k p (reset_port k n)) e (bind_fresh-Bound k p (reset_port k n)) in
      b.0

  bind_rtcp-PairBound :
      (p second : ℕ) (s old : Sockets)
      → s.rtp_socket.port ≡ p
      → s.rtcp_socket ≡ old.rtcp_socket
      → PairBound p second old (bind_rtcp second s)
  unfolding bind_rtcp server_ports_of
  bind_rtcp-PairBound p second s old at_p same = elim (Bool-cases (second == 0)) [
    | inl single ↦
        rw (bind_rtcp, single, single)
          (ap (λ (x : ℕ). (x, s.rtcp_socket.port)) at_p ∙ ap (λ (t : Socket). (p, t.port)) same)
    | inr pair ↦
        elim (Outcome-cases (bind_port k ((s.rtp_socket.port + 1) % 2 ^ 16) (rtcp_net s))) [
          | inl (n, bound) ↦
              rw (bind_rtcp, pair, bound, pair)
                (ap (λ (x : ℕ). (s.rtp_socket.port, x))
                    (bind_port-port ((s.rtp_socket.port + 1) % 2 ^ 16) (rtcp_net s) n bound)
                  ∙ ap (λ (x : ℕ). (x, (x + 1) % 2 ^ 16)) at_p)
          | inr (e, n, failed) ↦ rw (bind_rtcp, pair, failed) (inl at_p)
        ]
  ]

  -- With `p` in front of the pool and no port held by the first socket, `bind` needs one round: where
  -- it succeeds, the server's ports are `p` and the next one (modulo 2 ^ 16), or, where the client gave no second
  -- port, whatever the second socket began with; where it throws, the first socket has `p` or none.
  pub bind_sockets-PairBound :
      (second p : ℕ) (ps : List ℕ) (s : Sockets)
      → s.rtp_socket.port ≡ 0
      → s.ports ≡ p ∷ ps
      → PairBound p second s (bind_sockets second s)
  unfolding bind_sockets
  bind_sockets-PairBound second p ps s free pool = elim (Outcome-cases (bind k (rtp_net s))) [
    | inl (n, bound) ↦
        let b : Bound k p (record (rtp_net s) { ports = ps }) (done n) =
          subst (Bound k p (record (rtp_net s) { ports = ps })) bound fresh in
        rw (bind_sockets, bound) (bind_rtcp-PairBound p second (put_rtp n s) s b.0 refl)
    | inr (e, n, failed) ↦
        let b : Bound k p (record (rtp_net s) { ports = ps }) (threw e n) =
          subst (Bound k p (record (rtp_net s) { ports = ps })) failed fresh in
        rw (bind_sockets, failed) (inr b.0)
  ]
    where
      fresh : Bound k p (record (rtp_net s) { ports = ps }) (bind k (rtp_net s))
      fresh =
          rw (bind-bind_fresh k (rtp_net s) p ps free pool)
            (bind_fresh-Bound k p (record (rtp_net s) { ports = ps }))
