-- ===== src/Rtp/Transport.antt =====
-- `RTPTransport` of src/Server/RTPTransport.h and src/Server/RTPTransport.cpp: the Transport header
-- of a SETUP request. The sockets are in Rtp/Transport/Bind.antt.
pub mod Ports
pub mod Parse
pub mod Answer
pub mod Bind
pub mod Construct
pub mod Tests
use rtp_server.Common.{
  ℕ, ◌+◌, ◌-◌, ◌%◌, ◌^◌, Bool, true, false, not, ◌&&◌, Option, none, some, List, [], ◌∷◌, ◌++◌, map,
  ◌==◌, if◌then◌else◌, length, take, drop, Bytes, codes, bytes_eq, find, to_lower, to_upper,
}
use mathlib.Core.Option
use rtp_server.Exception.{
  Error, bad_transport_spec, bad_protocol, bad_profile, bad_lower_transport, missing_unicast,
  unsupported_mode, bad_rtp_port, bad_rtcp_port, undefined_behaviour, Result, ok, err, ◌>>=◌,
  or_throw,
}
use rtp_server.Util.Decimal.{from_chars, to_chars}
use rtp_server.Util.Split.{split}

-- `std::pair<uint16_t, uint16_t>`
pub record PortPair : Type 0 where
  pub first : ℕ
  pub second : ℕ

pub record Transport : Type 0 where
  pub unicast : Bool
  pub client_ports : PortPair
  pub server_ports : PortPair
  pub protocol : Bytes
  pub profile : Bytes
  pub lower_transport : Bytes

abbrev pub no_ports : PortPair
no_ports = record { first = 0; second = 0 }

abbrev pub blank : Transport
blank = record {
  unicast = false;
  client_ports = no_ports;
  server_ports = no_ports;
  protocol = [];
  profile = [];
  lower_transport = [];
}

-- An odd port is taken down to the even one below it, and the second port with it if there is one.
pub to_even : PortPair → PortPair
to_even p =
    if p.first % 2 == 1
    then record { first = p.first - 1; second = if p.second == 0 then 0 else p.second - 1 }
    else p

-- The part behind `-`, which must be the port after the first one.
pub set_rtcp_port : Bytes → ℕ → PortPair → Result PortPair
set_rtcp_port value i p = if i == length value then ok p else (do
  second ← or_throw (from_chars (2 ^ 16) (drop (i + 1) value)) bad_rtcp_port
  if second == p.first + 1 then ok (record p { second = second }) else err bad_rtcp_port)

pub set_client_ports : Bytes → PortPair → Result PortPair
set_client_ports value p = do
  let i = Option.get_or (find (codes "-") value) (length value)
  first ← or_throw (from_chars (2 ^ 16) (take i value)) bad_rtp_port
  p' ← set_rtcp_port value i (record p { first = first })
  ok (to_even p')

set_key_value : Bytes → Bytes → Transport → Result Transport
set_key_value key value t =
    if bytes_eq key (codes "client_port")
    then (do p ← set_client_ports value t.client_ports; ok (record t { client_ports = p }))
    else if bytes_eq key (codes "mode") && not (bytes_eq value (codes "play"))
    then err unsupported_mode
    else ok t

pub set_parameter : Bytes → Transport → Result Transport
set_parameter parameter t = elim (find (codes "=") parameter) [
  | some i ↦ set_key_value (take i parameter) (drop (i + 1) parameter) t
  | none ↦ ok (if bytes_eq parameter (codes "unicast") then record t { unicast = true } else t)
]

-- The loop over the parameters.
pub set_parameters : List Bytes → Transport → Result Transport
set_parameters [] t = ok t
set_parameters (p ∷ ps) t = do t' ← set_parameter p t; set_parameters ps t'

-- The loop over the parts of the specifier. `parts_dst` has three elements.
pub assign_parts : List Bytes → Result Transport
assign_parts [] = ok blank
assign_parts (a ∷ []) = ok (record blank { protocol = a })
assign_parts (a ∷ b ∷ []) = ok (record blank { protocol = a; profile = b })
assign_parts (a ∷ b ∷ c ∷ []) = ok (record blank { protocol = a; profile = b; lower_transport = c })
assign_parts _ = err undefined_behaviour

abbrev is_nil : Bytes → Bool
is_nil [] = true
is_nil _ = false

-- The four tests behind that loop.
pub check_parts : Transport → Result Transport
check_parts t =
    if not (bytes_eq t.protocol (codes "rtp"))
    then err bad_protocol
    else if not (bytes_eq t.profile (codes "avp"))
    then err bad_profile
    else if is_nil t.lower_transport
    then ok (record t { lower_transport = codes "udp" })
    else if bytes_eq t.lower_transport (codes "udp")
    then ok t
    else err bad_lower_transport

-- The constructor up to `bind()`, on the header value in lower case and the place of its first `;`.
parse_lowered : Bytes → ℕ → Result Transport
parse_lowered value i = do
  t₁ ← assign_parts (split (take i value) b'/')
  t₂ ← check_parts t₁
  t₃ ← set_parameters (split (drop (i + 1) value) b';') t₂
  if t₃.unicast then ok t₃ else err missing_unicast

pub parse_transport : Bytes → Result Transport
parse_transport value = do
  i ← or_throw (find (codes ";") value) bad_transport_spec
  parse_lowered (map to_lower value) i

print_second : ℕ → Bytes
print_second port = if port == 0 then [] else codes "-" ++ to_chars port

-- `std::sprintf` into a buffer of 128 bytes, cut to what was written.
unfoldable pub get_string : Transport → Bytes
unfolding print_second
get_string t =
    map to_upper (
      t.protocol
      ++ (codes "/"
          ++ (t.profile
              ++ (if is_nil t.lower_transport then [] else codes "/" ++ t.lower_transport))))
    ++ (codes ";unicast;client_port="
        ++ (to_chars t.client_ports.first
            ++ (print_second t.client_ports.second
                ++ (codes ";server_port="
                    ++ (to_chars t.server_ports.first ++ print_second t.server_ports.second)))))
