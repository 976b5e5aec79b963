-- ===== src/Rtsp/Request/Tests.antt =====
-- The messages of test/test_common.h, and the theorems on requests and responses at concrete ones.
use rtp_server.Common.{
  ◌≡◌, ◌≢◌, refl, true, false, not, ◌&&◌, [], ◌∷◌, ◌++◌, arith, ◌==◌, Bytes, codes, all, all-All,
  all-NoneOf, is_prefix, find, find_at, slice, bytes_eq, to_lower, Lowercase,
}
use rtp_server.Exception.{done, threw, bad_request_line, bad_header}
use rtp_server.Util.Decimal.{from_chars}
use rtp_server.Rtsp.Headers.{lookup, add_value, contains}
use rtp_server.Rtsp.Request.{
  Request, scan, initial, parse_complete, parse_request, ready, next_delimiter, nearest,
  apply_parts, set_request_line_parts, set_url, set_version, add_headers, add_header, finish,
  assign_body,
}
use rtp_server.Rtsp.Request.Loop.{Eol, NoBreak, LeftByBreak, scan-LeftByBreak}
use rtp_server.Rtsp.Request.Line.{request_line}
use rtp_server.Rtsp.Request.RoundTrip.{IsWellFormed, render, with_tail, parse_request-render}
use rtp_server.Rtsp.Request.Chunks.{
  waiting, parse_request-body_in_two_reads, parse_request-header_in_second_read,
}

all-NoBreak : (s : Bytes) → all (λ x. not (x == b'\r') && not (x == b'\n')) s ≡ true → NoBreak s
all-NoBreak s e =
    all-All (λ c. (c ≢ b'\r') × (c ≢ b'\n')) (λ x. not (x == b'\r') && not (x == b'\n')) s
      (λ x h. ground arith) e

abbrev describe_message : Bytes
describe_message =
    codes "DESCRIBE rtsp://192.168.1.100:8554/sample RTSP/1.0\nCSeq: 2\nAccept: application/sdp\n\n"

abbrev describe_parsed : Request
describe_parsed = record {
  method = codes "DESCRIBE";
  url = codes "rtsp://192.168.1.100:8554/sample";
  version = codes "RTSP/1.0";
  body = [];
  headers = (codes "cseq", codes "2") ∷ (codes "accept", codes "application/sdp") ∷ [];
  cursor = parse_complete;
  client_addr = [];
}

parse_describe : parse_request describe_message initial ≡ done describe_parsed
unfolding parse_request scan next_delimiter nearest apply_parts set_request_line_parts set_url
    set_version add_headers add_header finish assign_body ready find find_at is_prefix slice lookup
    add_value contains bytes_eq to_lower from_chars
parse_describe = refl

-- A message whose second line is no header is refused.
parse_broken :
    ((q : Request) × (parse_request
          (codes "DESCRIBE rtsp://h/s RTSP/1.0\nBROKEN HEADER\n\n")
          initial
        ≡ threw bad_header q))
unfolding parse_request scan next_delimiter nearest apply_parts set_request_line_parts set_url
    set_version add_headers add_header finish assign_body ready find find_at is_prefix slice lookup
    add_value contains bytes_eq to_lower from_chars
parse_broken = (_, refl)

all-Lowercase : (s : Bytes) → all (λ x. to_lower x == x) s ≡ true → Lowercase s
all-Lowercase s e = all-All (λ x. to_lower x ≡ x) (λ x. to_lower x == x) s (λ x h. ground arith) e

describe-IsWellFormed : IsWellFormed describe_parsed
unfolding to_lower bytes_eq lookup
describe-IsWellFormed = record {
  lines_whole = (
    all-NoBreak (request_line describe_parsed) refl,
    (all-NoBreak (codes "cseq: 2") refl, (all-NoBreak (codes "accept: application/sdp") refl, tt)),
  );
  method_word = all-NoneOf b' ' describe_parsed.method refl;
  url_word = all-NoneOf b' ' describe_parsed.url refl;
  names_distinct = (
    (all-Lowercase (codes "cseq") refl, all-NoneOf b':' (codes "cseq") refl),
    tt,
    ((all-Lowercase (codes "accept") refl, all-NoneOf b':' (codes "accept") refl), (refl, tt), tt),
  );
  body_fits = refl;
}

parse_describe_example :
    parse_request
      (render Eol.just_lf describe_parsed [])
      (record initial { client_addr = codes "h" })
    ≡ done (record describe_parsed { client_addr = codes "h" })
parse_describe_example =
    parse_request-render Eol.just_lf describe_parsed [] (codes "h") describe-IsWellFormed tt
      (omega arith)

-- A request with a body of two bytes.
abbrev with_body : Request
with_body = record describe_parsed {
  body = codes "ab";
  headers = (codes "content-length", codes "2") ∷ [];
}

with_body-IsWellFormed : IsWellFormed with_body
unfolding to_lower bytes_eq lookup from_chars
with_body-IsWellFormed = record {
  lines_whole = (
    all-NoBreak (request_line with_body) refl,
    (all-NoBreak (codes "content-length: 2") refl, tt),
  );
  method_word = all-NoneOf b' ' with_body.method refl;
  url_word = all-NoneOf b' ' with_body.url refl;
  names_distinct = (
    (all-Lowercase (codes "content-length") refl, all-NoneOf b':' (codes "content-length") refl),
    tt,
    tt,
  );
  body_fits = refl;
}

body_in_two_reads_example :
    (parse_request (with_tail Eol.crlf with_body (codes "a")) (record initial { client_addr = [] })
      ≡ done (waiting Eol.crlf with_body []))
    × (parse_request (with_tail Eol.crlf with_body (codes "ab")) (waiting Eol.crlf with_body [])
        ≡ done (waiting Eol.crlf with_body []))
    × (ready (waiting Eol.crlf with_body []) ≡ false)
body_in_two_reads_example =
    parse_request-body_in_two_reads Eol.crlf with_body (codes "a") (codes "b") []
      with_body-IsWellFormed refl (λ e. cc) (all-NoBreak (codes "ab") refl) (omega arith)

-- A request whose first line is read.
abbrev half_read : Request
half_read = record initial {
  method = codes "PLAY";
  url = codes "u";
  version = codes "v";
  cursor = 9;
}

header_in_second_read_example :
    (q : Request) × (parse_request
        (codes "PLAY u v\n" ++ (codes "cseq: 2" ++ (codes "\n" ++ codes "\n")))
        half_read
      ≡ threw bad_request_line q)
    × (q.method ≡ codes "cseq:")
unfolding ready
header_in_second_read_example =
    parse_request-header_in_second_read Eol.just_lf half_read (codes "PLAY u v\n") (codes "cseq")
      (codes "2") (codes "\n") refl refl (all-NoBreak (codes "cseq: 2") refl)
      (all-NoneOf b' ' (codes "cseq") refl) (all-NoneOf b' ' (codes "2") refl) tt

scan_ends_example : LeftByBreak (codes "a\nb\n\n") (scan 6 (codes "a\nb\n\n") 0)
scan_ends_example = scan-LeftByBreak 6 (codes "a\nb\n\n") 0 (omega arith) (omega arith)
