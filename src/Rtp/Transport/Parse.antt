-- ===== src/Rtp/Transport/Parse.antt =====
-- What a Transport header that is accepted stands for, and the header of the answer read back.
use rtp_server.Common.{
  ℕ, ◌+◌, ◌≡◌, refl, inl, inr, true, Option-cases, List, [], ◌∷◌, map, arith, take, drop, Bytes,
  codes, bytes_eq_iff, find, to_lower,
}
use rtp_server.Exception.{ok, IsOk, IsOk-bind, IsOk-eq}
use rtp_server.Util.Split.{split}
use rtp_server.Rtp.Transport.{
  Transport, no_ports, set_key_value, set_parameter, set_parameters, assign_parts, check_parts,
  parse_lowered, parse_transport,
}
use rtp_server.Rtp.Transport.Ports.{IsEven, set_client_ports-IsEven}

-- RTP/AVP over UDP, to an even port of the client.
pub record IsRtpAvpUdp (t : Transport) : Type 0 where
  pub protocol_is : t.protocol ≡ codes "rtp"
  pub profile_is : t.profile ≡ codes "avp"
  pub lower_is : t.lower_transport ≡ codes "udp"
  pub port_even : IsEven t.client_ports
  pub unbound : t.server_ports ≡ no_ports

abbrev IsUnused : Transport → Type 0
IsUnused t = (t.client_ports ≡ no_ports) × (t.server_ports ≡ no_ports)

assign_parts-IsUnused : (ps : List Bytes) → IsOk IsUnused (assign_parts ps)
unfolding assign_parts
assign_parts-IsUnused [] = (refl, refl)
assign_parts-IsUnused (a ∷ []) = (refl, refl)
assign_parts-IsUnused (a ∷ b ∷ []) = (refl, refl)
assign_parts-IsUnused (a ∷ b ∷ c ∷ []) = (refl, refl)
assign_parts-IsUnused (a ∷ b ∷ c ∷ d ∷ _) = tt

check_parts-IsRtpAvpUdp : (t : Transport) → IsUnused t → IsOk IsRtpAvpUdp (check_parts t)
unfolding check_parts
check_parts-IsRtpAvpUdp t u = ground (
  arith,
  bytes_eq_iff t.protocol (codes "rtp"),
  bytes_eq_iff t.profile (codes "avp"),
  bytes_eq_iff t.lower_transport (codes "udp"),
)

set_key_value-IsRtpAvpUdp :
    (key value : Bytes) (t : Transport)
    → IsRtpAvpUdp t
    → IsOk IsRtpAvpUdp (set_key_value key value t)
unfolding set_key_value
set_key_value-IsRtpAvpUdp key value t h =
    ground (arith, set_client_ports-IsEven value t.client_ports)

set_parameter-IsRtpAvpUdp :
    (p : Bytes) (t : Transport) → IsRtpAvpUdp t → IsOk IsRtpAvpUdp (set_parameter p t)
unfolding set_parameter
set_parameter-IsRtpAvpUdp p t h = elim (Option-cases (find (codes "=") p)) [
  | inl e ↦ rw (set_parameter, e) (ground arith)
  | inr (i, e) ↦ rw (set_parameter, e) (set_key_value-IsRtpAvpUdp (take i p) (drop (i + 1) p) t h)
]

set_parameters-IsRtpAvpUdp :
    (ps : List Bytes) (t : Transport) → IsRtpAvpUdp t → IsOk IsRtpAvpUdp (set_parameters ps t)
unfolding set_parameters
set_parameters-IsRtpAvpUdp [] t h = h
set_parameters-IsRtpAvpUdp (p ∷ ps) t h =
    IsOk-bind IsRtpAvpUdp IsRtpAvpUdp (set_parameter p t) (set_parameters ps)
      (set_parameter-IsRtpAvpUdp p t h) (set_parameters-IsRtpAvpUdp ps)

parse_lowered-IsRtpAvpUdp :
    (value : Bytes) (i : ℕ) → IsOk (λ t. (t.unicast ≡ true) × IsRtpAvpUdp t) (parse_lowered value i)
unfolding parse_lowered
parse_lowered-IsRtpAvpUdp value i =
    IsOk-bind IsUnused Accepted (assign_parts parts) _ (assign_parts-IsUnused parts) λ t₁ h₁.
      IsOk-bind IsRtpAvpUdp Accepted (check_parts t₁) _ (check_parts-IsRtpAvpUdp t₁ h₁) λ t₂ h₂.
        IsOk-bind IsRtpAvpUdp Accepted (set_parameters _ t₂) _ (set_parameters-IsRtpAvpUdp _ t₂ h₂)
          λ t₃ h₃. ground arith
  where
    parts : List Bytes
    parts = split (take i value) b'/'

    Accepted : Transport → Type 0
    Accepted t = (t.unicast ≡ true) × IsRtpAvpUdp t

-- Every header value that is accepted asks for RTP/AVP over UDP, unicast, to an even port below
-- 2 ^ 16; the ports of the server are not set yet.
pub parse_transport-IsRtpAvpUdp :
    (value : Bytes) {t : Transport}
    → parse_transport value ≡ ok t
    → (t.unicast ≡ true) × IsRtpAvpUdp t
unfolding parse_transport
parse_transport-IsRtpAvpUdp value e = IsOk-eq (λ t. (t.unicast ≡ true) × IsRtpAvpUdp t) parsed e
  where
    parsed : IsOk (λ t. (t.unicast ≡ true) × IsRtpAvpUdp t) (parse_transport value)
    parsed = elim (Option-cases (find (codes ";") value)) [
      | inl none_found ↦ rw (parse_transport, none_found) tt
      | inr (i, found) ↦
          rw (parse_transport, found) (parse_lowered-IsRtpAvpUdp (map to_lower value) i)
    ]
