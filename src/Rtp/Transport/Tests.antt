-- ===== src/Rtp/Transport/Tests.antt =====
-- The theorems on the Transport header at concrete ones.
use rtp_server.Common.{
  ℕ, some, [], ◌∷◌, ◌+◌, inr, ◌≡◌, refl, true, arith, codes, find, bytes_eq, to_lower, to_upper,
}
use rtp_server.Exception.{done, ok, IsOk}
use rtp_server.Util.Decimal.{from_chars, to_chars}
use rtp_server.Util.Split.{split}
use rtp_server.Rtp.Transport.{
  get_string, Transport, no_ports, blank, to_even, set_rtcp_port, set_client_ports, set_key_value,
  set_parameter, set_parameters, assign_parts, check_parts, parse_lowered, parse_transport,
  print_second,
}
use rtp_server.Udp.{Kernel, Socket, bind, bind_port}
use rtp_server.Rtp.Transport.Bind.{Sockets, bind_rtcp, bind_sockets}
use rtp_server.Rtp.Transport.Construct.{Shared, construct}
use rtp_server.Rtp.Transport.Construct.Made.{construct-IsMade, IsMade}
use rtp_server.Rtp.Transport.Answer.{answer, parse_transport-get_string}

-- The Transport header of test/test_common.h.
abbrev pub asked : Transport
asked = record blank {
  unicast = true;
  client_ports = record { first = 4588; second = 4589 };
  protocol = codes "rtp";
  profile = codes "avp";
  lower_transport = codes "udp";
}

pub parse_asked : parse_transport (codes "RTP/AVP;unicast;client_port=4588-4589") ≡ ok asked
unfolding parse_transport parse_lowered check_parts assign_parts set_parameters set_parameter
    set_key_value set_client_ports set_rtcp_port to_even split from_chars find bytes_eq to_lower
parse_asked = refl

answer_example :
    parse_transport (get_string (answer (record { first = 4588; second = 4589 }) no_ports))
    ≡ ok (answer (record { first = 4588; second = 4589 }) no_ports)
answer_example =
    parse_transport-get_string (record { first = 4588; second = 4589 }) no_ports
      (refl, omega arith, inr refl)

-- A kernel that counts descriptors from 3 and takes every address.
abbrev willing : Kernel
willing = record {
  State = ℕ;
  open_socket = λ n. (some n, n + 1);
  bind_address = λ fd port n. (true, n);
  connect_address = λ fd addr n. (true, n);
  close_socket = λ fd n. n;
}

abbrev unbound : Sockets willing
unbound = record {
  rtp_socket = record { socket_fd = 0; port = 0 };
  rtcp_socket = record { socket_fd = 0; port = 0 };
  ports = 5004 ∷ 5006 ∷ [];
  kernel = 3;
}

bind_pair :
    bind_sockets willing 4589 unbound
    ≡ done (record {
      rtp_socket = record { socket_fd = 3; port = 5004 };
      rtcp_socket = record { socket_fd = 4; port = 5005 };
      ports = 5006 ∷ [];
      kernel = 5;
    })
unfolding bind_sockets bind_rtcp bind bind_port
bind_pair = refl

abbrev empty_socket : Socket
empty_socket = record { socket_fd = 0; port = 0 }

abbrev two_ports : Shared willing
two_ports = record { ports = 5004 ∷ 5006 ∷ []; kernel = 3 }

construct-IsMade_example :
    IsOk
      (IsMade willing (codes "RTP/AVP;unicast;client_port=4588-4589") empty_socket 5004)
      (construct willing empty_socket empty_socket []
        (codes "RTP/AVP;unicast;client_port=4588-4589")
        two_ports).0
construct-IsMade_example =
    construct-IsMade willing empty_socket empty_socket []
      (codes "RTP/AVP;unicast;client_port=4588-4589") two_ports 5004 (5006 ∷ []) refl refl

-- The text for the header of test/test_common.h, which expects it without the lower transport.
answer_text :
    get_string (record asked { server_ports = record { first = 5004; second = 5005 } })
    ≡ codes "RTP/AVP/UDP;unicast;client_port=4588-4589;server_port=5004-5005"
unfolding get_string print_second to_upper to_chars
answer_text = refl
