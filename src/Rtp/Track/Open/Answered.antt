-- ===== src/Rtp/Track/Open/Answered.antt =====
-- What the client reads in the Transport header of the answer to SETUP.
use rtp_server.Common.{
  ℕ, ◌+◌, ◌%◌, ◌^◌, ◌==◌, ◌≡◌, refl, ap, sym, ◌∙◌, inl, inr, false, List, ◌∷◌, Bytes,
}
use rtp_server.Exception.{Result, ok, err, IsOk, IsOk-eq, Result-cases}
use rtp_server.Udp.{Socket}
use rtp_server.Rtp.Transport.{PortPair, no_ports, Transport, parse_transport, get_string}
use rtp_server.Rtp.Transport.Ports.{IsPair}
use rtp_server.Rtp.Transport.Parse.{parse_transport-IsRtpAvpUdp}
use rtp_server.Rtp.Transport.Answer.{answer, parse_transport-get_string}
use rtp_server.Rtp.Transport.Bind.{Sockets}
use rtp_server.Rtp.Transport.Construct.{construct}
use rtp_server.Rtp.Transport.Construct.Made.{IsMade, construct-IsMade}
use rtp_server.Rtp.Track.Open.{Studio, Opening, open_stream, new_track}

ok_injective {ℓ} : {A : Type ℓ} {a b : A} → ok a ≡ ok b → a ≡ b
ok_injective {A} {a} e = ap (λ (r : Result A). elim r as (λ x. A) [ ok x ↦ x | err x ↦ a ]) e

-- An accepted header asks for what an answer says, but for the ports of the server.
accepted_answer :
    (value : Bytes) (asked : Transport)
    → parse_transport value ≡ ok asked
    → asked ≡ answer asked.client_ports no_ports
accepted_answer value asked e =
    let (u, h) = parse_transport-IsRtpAvpUdp value e in
    λ i. record {
      unicast = u i;
      client_ports = asked.client_ports;
      server_ports = h.unbound i;
      protocol = h.protocol_is i;
      profile = h.profile_is i;
      lower_transport = h.lower_is i;
    }

module _ (g : Studio) where
  -- The text names the ports of the server, and is read as the header of the request is.
  pub record IsAnswer (asked : Transport) (p : ℕ) (text : Bytes) : Type 0 where
    pub server_ports : PortPair
    pub first_is : server_ports.first ≡ p
    pub second_is :
        (asked.client_ports.second == 0) ≡ false → server_ports.second ≡ (p + 1) % 2 ^ 16
    pub text_is : text ≡ get_string (record asked { server_ports = server_ports })
    pub read_back : parse_transport text ≡ ok asked

  made-IsAnswer :
      (value : Bytes) (rtcp : Socket) (p : ℕ) (asked : Transport) (t : Transport)
      (sockets : Sockets g.kernel)
      → parse_transport value ≡ ok asked
      → IsPair asked.client_ports
      → IsMade g.kernel value rtcp p (t, sockets)
      → IsAnswer asked p (get_string t)
  made-IsAnswer value rtcp p asked t sockets parsed pair (asked', parsed', made, ports) =
      let same : asked' ≡ asked = ok_injective (sym parsed' ∙ parsed) in
      let at : asked ≡ answer asked.client_ports no_ports = accepted_answer value asked parsed in
      let ports_are = ap (λ (x : Transport). x.server_ports) made in
      let t_is : t ≡ record asked { server_ports = t.server_ports } =
        made
        ∙ (ap (λ (x : PortPair). record asked' { server_ports = x }) (sym ports_are)
            ∙ ap (λ (a : Transport). record a { server_ports = t.server_ports }) same) in
      let text : get_string t ≡ get_string (answer asked.client_ports t.server_ports) =
        ap get_string t_is
        ∙ ap (λ (a : Transport). get_string (record a { server_ports = t.server_ports })) at in
      record {
        server_ports = t.server_ports;
        first_is = ap (λ (x : Transport). x.server_ports.first) made;
        second_is = λ h. ap (λ (x : Transport). x.server_ports.second) made ∙ rw (same, h) refl;
        text_is = ap get_string t_is;
        read_back =
            ap parse_transport text
            ∙ (parse_transport-get_string asked.client_ports t.server_ports pair ∙ ap ok (sym at));
      }

  -- Where the first socket's memory held port 0 and `p` is in front of the pool, a track is made for
  -- a Transport header that is accepted, with an even client port and the next one or none: the
  -- Transport header that SETUP answers with names `p` and, if the client gave a second port, the
  -- next one (modulo 2 ^ 16), and read as a Transport header it gives what the request's gives.
  pub new_track-IsAnswer :
      (client_addr basename control_id value : Bytes) (o : Opening g) (asked : Transport) (p : ℕ)
      (ps : List ℕ)
      → (g.memory o.tried).0.port ≡ 0
      → o.shared.ports ≡ p ∷ ps
      → parse_transport value ≡ ok asked
      → IsPair asked.client_ports
      → IsOk
          (λ made. IsAnswer asked p made.1)
          (new_track g client_addr basename control_id value o).0
  unfolding new_track
  new_track-IsAnswer client_addr basename control_id value o asked p ps free pool parsed pair =
      let (rtp, rtcp) = g.memory o.tried in
      let m = construct-IsMade g.kernel rtp rtcp client_addr value o.shared p ps free pool in
      elim (Result-cases (construct g.kernel rtp rtcp client_addr value o.shared).0) [
        | inr (e, failed) ↦ rw (new_track, failed) tt
        | inl ((t, sockets), built) ↦
            let d : IsMade g.kernel value rtcp p (t, sockets) =
              IsOk-eq (IsMade g.kernel value rtcp p) m built in
            elim (Result-cases (open_stream g basename control_id)) [
              | inr (e, failed) ↦ rw (new_track, built, failed) tt
              | inl ((media_type, stream), loaded) ↦
                  rw (new_track, built, loaded)
                    (made-IsAnswer value rtcp p asked t sockets parsed pair d)
            ]
      ]
