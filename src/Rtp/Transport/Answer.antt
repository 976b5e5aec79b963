-- ===== src/Rtp/Transport/Answer.antt =====
-- The Transport header of the answer, read back.
use rtp_server.Common.{
  ℕ, suc, ◌+◌, ◌%◌, ◌≤◌, ◌≡◌, refl, ap, sym, ◌∙◌, ◌⊎◌, inl, inr, Bool, true, false, [], ◌∷◌, ◌++◌,
  append_assoc, append-nil, map, arith, ◌==◌, if◌then◌else◌, length, length-append, Bytes, NoneOf,
  all-NoneOf, codes, find, to_lower, to_upper, All, bytes_eq,
}
use rtp_server.Exception.{ok}
use rtp_server.Util.Decimal.{to_chars, AllDigits, to_chars-AllDigits, length-to_chars}
use rtp_server.Util.Split.{split, pieces}
use rtp_server.Util.Split.Pieces.{split_lem, pieces-append, pieces_one}
use rtp_server.Rtp.Transport.{
  PortPair, Transport, no_ports, to_even, set_client_ports, set_key_value, set_parameter,
  set_parameters, assign_parts, check_parts, parse_lowered, parse_transport, print_second,
  get_string,
}
use rtp_server.Rtp.Transport.Ports.{IsPair, set_client_ports_one, set_client_ports_pair}

-- A pair of ports as text.
print_ports : PortPair → Bytes
print_ports p = to_chars p.first ++ print_second p.second

-- A byte of such a text: a digit or the dash.
abbrev IsPortByte : ℕ → Type 0
IsPortByte c = (c ≡ b'-') ⊎ ((b'0' ≤ c) × (c ≤ b'9'))

digits-IsPortByte : (s : Bytes) → AllDigits s → All IsPortByte s
digits-IsPortByte [] h = tt
digits-IsPortByte (c ∷ s) h = (inr h.0, digits-IsPortByte s h.1)

append-IsPortByte : (s t : Bytes) → All IsPortByte s → All IsPortByte t → All IsPortByte (s ++ t)
append-IsPortByte [] t h k = k
append-IsPortByte (c ∷ s) t h k = (h.0, append-IsPortByte s t h.1 k)

print_second-IsPortByte : (n : ℕ) → All IsPortByte (print_second n)
unfolding print_second
print_second-IsPortByte n = pick (n == 0)
  where
    pick : (b : Bool) → All IsPortByte (if b then [] else codes "-" ++ to_chars n)
    pick true = tt
    pick false = (inl refl, digits-IsPortByte (to_chars n) (to_chars-AllDigits n))

print_ports-IsPortByte : (p : PortPair) → All IsPortByte (print_ports p)
unfolding print_ports
print_ports-IsPortByte p =
    append-IsPortByte (to_chars p.first) (print_second p.second)
      (digits-IsPortByte (to_chars p.first) (to_chars-AllDigits p.first))
      (print_second-IsPortByte p.second)

lower_ports : (s t : Bytes) → All IsPortByte s → map to_lower (s ++ t) ≡ s ++ map to_lower t
unfolding to_lower
lower_ports [] t h = refl
lower_ports (c ∷ s) t h = rw (lower_ports s t h.1) (ground arith)

no_semicolon : (s : Bytes) → All IsPortByte s → NoneOf b';' s
no_semicolon [] h = tt
no_semicolon (c ∷ s) h = ((λ e. ground arith), no_semicolon s h.1)

NoneOf-append : (c : ℕ) (a b : Bytes) → NoneOf c a → NoneOf c b → NoneOf c (a ++ b)
NoneOf-append c [] b h k = k
NoneOf-append c (x ∷ a) b h k = (h.0, NoneOf-append c a b h.1 k)

to_even_even : (p : PortPair) → p.first % 2 ≡ 0 → to_even p ≡ p
unfolding to_even
to_even_even p h = ground arith

-- The client's ports are read back.
set_client_ports-print_ports :
    (p : PortPair) → IsPair p → set_client_ports (print_ports p) no_ports ≡ ok p
unfolding print_ports print_second
set_client_ports-print_ports p (even, small, inl alone) =
    ap (λ s. set_client_ports (to_chars p.first ++ s) no_ports) (rw alone)
    ∙ ap (λ s. set_client_ports s no_ports) (append-nil (to_chars p.first))
    ∙ set_client_ports_one p.first no_ports small
    ∙ ap ok (to_even_even (record { first = p.first; second = 0 }) even)
    ∙ ap (λ n. ok (record { first = p.first; second = n })) (sym alone)
set_client_ports-print_ports p (even, small, inr next) =
    ap (λ s. set_client_ports (to_chars p.first ++ s) no_ports) second_text
    ∙ set_client_ports_pair p.first no_ports (omega arith)
    ∙ ap ok (to_even_even (record { first = p.first; second = suc p.first }) even)
    ∙ ap (λ n. ok (record { first = p.first; second = n })) (sym at_next)
  where
    at_next : p.second ≡ suc p.first
    at_next = omega arith

    second_text : print_second p.second ≡ codes "-" ++ to_chars (suc p.first)
    second_text = rw at_next (ground arith)

-- What `get_string` is called on: a transport that was accepted and bound.
abbrev pub answer : PortPair → PortPair → Transport
answer client server = record {
  unicast = true;
  client_ports = client;
  server_ports = server;
  protocol = codes "rtp";
  profile = codes "avp";
  lower_transport = codes "udp";
}

module _ (client server : PortPair) where
  abbrev tail_text : Bytes
  tail_text = print_ports client ++ (codes ";server_port=" ++ print_ports server)

  get_string_text :
      get_string (answer client server) ≡ codes "RTP/AVP/UDP;unicast;client_port=" ++ tail_text
  unfolding get_string to_upper print_ports
  get_string_text =
      ap (λ s. codes "RTP/AVP/UDP;unicast;client_port=" ++ s)
        (sym (
          append_assoc (to_chars client.first) (print_second client.second)
            (codes ";server_port=" ++ print_ports server)))

  lowered :
      map to_lower (codes "RTP/AVP/UDP;unicast;client_port=" ++ tail_text)
      ≡ codes "rtp/avp/udp;unicast;client_port=" ++ tail_text
  unfolding to_lower
  lowered =
      ap (λ s. codes "rtp/avp/udp;unicast;client_port=" ++ s)
        (lower_ports (print_ports client) (codes ";server_port=" ++ print_ports server)
            (print_ports-IsPortByte client)
          ∙ ap (λ s. print_ports client ++ (codes ";server_port=" ++ s))
              (ap (map to_lower) (sym (append-nil (print_ports server)))
                ∙ lower_ports (print_ports server) [] (print_ports-IsPortByte server)
                ∙ append-nil (print_ports server)))

  parameters :
      split (codes "unicast;client_port=" ++ tail_text) b';'
      ≡ codes "unicast"
        ∷ (codes "client_port=" ++ print_ports client)
        ∷ (codes "server_port=" ++ print_ports server)
        ∷ []
  parameters =
      split_lem (codes "unicast;client_port=" ++ tail_text) b';'
      ∙ pieces-append b';' (codes "unicast") (codes "client_port=" ++ tail_text)
          (all-NoneOf b';' (codes "unicast") refl)
      ∙ ap (◌∷◌ (codes "unicast")) (
          ap (pieces b';') (
            sym (
              append_assoc (codes "client_port=") (print_ports client)
                (codes ";server_port=" ++ print_ports server)))
          ∙ pieces-append b';' (codes "client_port=" ++ print_ports client)
              (codes "server_port=" ++ print_ports server)
              (NoneOf-append b';' (codes "client_port=") (print_ports client)
                (all-NoneOf b';' (codes "client_port=") refl)
                (no_semicolon (print_ports client) (print_ports-IsPortByte client)))
          ∙ ap (◌∷◌ (codes "client_port=" ++ print_ports client)) (
              pieces_one b';' b's' (codes "erver_port=" ++ print_ports server) (
                NoneOf-append b';' (codes "server_port=") (print_ports server)
                  (all-NoneOf b';' (codes "server_port=") refl)
                  (no_semicolon (print_ports server) (print_ports-IsPortByte server)))))

  abbrev checked : Transport
  checked = record (answer no_ports no_ports) { unicast = false }

  set_parameters-answer :
      IsPair client
      → set_parameters
          (codes "unicast"
            ∷ (codes "client_port=" ++ print_ports client)
            ∷ (codes "server_port=" ++ print_ports server)
            ∷ [])
          checked
        ≡ ok (answer client no_ports)
  unfolding set_parameters set_parameter set_key_value find bytes_eq
  set_parameters-answer h = rw (set_parameters, set_client_ports-print_ports client h)

  parts : split (codes "rtp/avp/udp") b'/' ≡ codes "rtp" ∷ codes "avp" ∷ codes "udp" ∷ []
  unfolding split find
  parts = refl

  parse_lowered-answer :
      IsPair client
      → parse_lowered (codes "rtp/avp/udp;unicast;client_port=" ++ tail_text) 11
        ≡ ok (answer client no_ports)
  unfolding parse_lowered assign_parts check_parts bytes_eq
  parse_lowered-answer h = rw (parse_lowered, parts, parameters, set_parameters-answer h)

  at_semicolon :
      parse_transport (codes "RTP/AVP/UDP;unicast;client_port=" ++ tail_text)
      ≡ parse_lowered (map to_lower (codes "RTP/AVP/UDP;unicast;client_port=" ++ tail_text)) 11
  unfolding parse_transport find
  at_semicolon = refl

  -- For every client port pair (an even port below 2 ^ 16, alone or with the next one) and all
  -- server ports, the Transport header of the answer is accepted when it is read back, and gives the
  -- same transport, its server ports aside.
  pub parse_transport-get_string :
      IsPair client
      → parse_transport (get_string (answer client server)) ≡ ok (answer client no_ports)
  parse_transport-get_string h =
      ap parse_transport get_string_text
      ∙ at_semicolon
      ∙ ap (λ s. parse_lowered s 11) lowered
      ∙ parse_lowered-answer h

length-print_second : (n : ℕ) → length (print_second n) ≤ 21
unfolding print_second
length-print_second n = ground (arith, length-to_chars n)

-- For all ports, the text of an accepted transport and the zero byte that `sprintf` puts behind it
-- fit into the buffer of 128 bytes.
pub length-get_string :
    (client server : PortPair) → length (get_string (answer client server)) + 1 ≤ 128
unfolding print_ports
length-get_string client server = omega (
  arith,
  ap length (get_string_text client server),
  length-append (print_ports client) (codes ";server_port=" ++ print_ports server),
  length-append (to_chars client.first) (print_second client.second),
  length-append (to_chars server.first) (print_second server.second),
  length-to_chars client.first,
  length-to_chars server.first,
  length-print_second client.second,
  length-print_second server.second,
)
