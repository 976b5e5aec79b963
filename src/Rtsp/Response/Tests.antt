-- ===== src/Rtsp/Response/Tests.antt =====
-- The theorems on responses at concrete ones.
use rtp_server.Common.{
  ◌+◌, ◌≡◌, ◌≢◌, refl, true, not, ◌&&◌, [], ◌∷◌, arith, ◌==◌, length, drop, Bytes, codes, all,
  all-All,
}
use rtp_server.Rtsp.Request.{scan}
use rtp_server.Rtsp.Request.Loop.{NoBreak}
use rtp_server.Rtsp.Response.{Response, empty_response, marshal, get_data, get_length}
use rtp_server.Rtsp.Response.Text.{scan-marshal}

all-NoBreak : (s : Bytes) → all (λ x. not (x == b'\r') && not (x == b'\n')) s ≡ true → NoBreak s
all-NoBreak s e =
    all-All (λ c. (c ≢ b'\r') × (c ≢ b'\n')) (λ x. not (x == b'\r') && not (x == b'\n')) s
      (λ x h. ground arith) e

-- A response to DESCRIBE.
abbrev described : Response
described = record empty_response {
  status = codes "200 OK";
  body = codes "v=0\r\n";
  headers = (codes "CSeq", codes "2") ∷ [];
}

scan-marshal_example :
    let text = get_data (marshal (λ hs. hs) described) in
    let found = scan (length text + 1) text 0 in
    (found.parts ≡ codes "RTSP/1.0 200 OK" ∷ codes "CSeq: 2" ∷ [])
    × (drop found.header_end text ≡ codes "v=0\r\n")
    × (get_length (marshal (λ hs. hs) described) ≡ found.header_end + 5)
scan-marshal_example =
    scan-marshal (λ hs. hs) described
      (all-NoBreak (codes "RTSP/1.0 200 OK") refl, (all-NoBreak (codes "CSeq: 2") refl, tt))
