-- ===== src/Rtsp/Request/RoundTrip.antt =====
-- `RTSPRequest::parse_request` reads back every well-formed request that arrives in one piece.
use rtp_server.Common.{
  ℕ, ◌+◌, ◌^◌, ◌≤◌, ◌<◌, ◌≡◌, ◌≢◌, inl, inr, refl, ap, sym, ◌∙◌, Option, none, some, List, [], ◌∷◌,
  ◌++◌, append_assoc, map, arith, ==_ne, Option-cases, length, length-append, Bytes, All, NoneOf,
  codes, slice, slice-append,
}
use rtp_server.Exception.{done}
use rtp_server.Util.Decimal.{from_chars}
use rtp_server.Rtsp.Request.{
  Request, scan, ready, initial, parse_complete, apply_parts, finish, assign_body, parse_request,
}
use rtp_server.Rtsp.Headers.{Headers, lookup}
use rtp_server.Rtsp.Request.Loop.{
  found_eq, Eol, eol_bytes, CanFollow, NoBreak, IsLine, unlines, scan-unlines, eol_pos,
}
use rtp_server.Rtsp.Request.Line.{
  request_line, header_line, Distinct, set_request_line_parts_lem, add_headers_lem,
}

abbrev pub request_lines : Request → List Bytes
request_lines r = request_line r ∷ map header_line r.headers

-- The body is as long as the header says, or there is neither.
abbrev pub BodyFits : Option Bytes → Bytes → Type 0
BodyFits none body = body ≡ []
BodyFits (some v) body = from_chars (2 ^ 64) v ≡ some (length body)

-- A request that a client may send. Header values are single lines.
pub record IsWellFormed (r : Request) : Type 0 where
  pub lines_whole : All NoBreak (request_lines r)
  pub method_word : NoneOf b' ' r.method
  pub url_word : NoneOf b' ' r.url
  pub names_distinct : Distinct [] r.headers
  pub body_fits : BodyFits (lookup (codes "content-length") r.headers) r.body

-- The request as text, with the line ends `e`, and `rest` behind it.
abbrev pub render : Eol → Request → Bytes → Bytes
render e r rest = unlines e (request_lines r) (eol_bytes e ++ (r.body ++ rest))

request_line-ne : (r : Request) → request_line r ≢ []
request_line-ne r = not_nil r.method (r.url ++ (b' ' ∷ r.version))
  where
    not_nil : (m : Bytes) (t : Bytes) → m ++ (b' ' ∷ t) ≢ []
    not_nil [] t h = cc
    not_nil (c ∷ m) t h = cc

pub header_line-ne : (h : Bytes × Bytes) → header_line h ≢ []
header_line-ne (k, v) = not_nil k (b' ' ∷ v)
  where
    not_nil : (m : Bytes) (t : Bytes) → m ++ (b':' ∷ t) ≢ []
    not_nil [] t h = cc
    not_nil (c ∷ m) t h = cc

pub header_lines-IsLine :
    (e : Eol) (hs : Headers)
    → All NoBreak (map header_line hs)
    → All (IsLine e) (map header_line hs)
header_lines-IsLine e [] n = tt
header_lines-IsLine e (h ∷ hs) n = ((n.0, header_line-ne h), header_lines-IsLine e hs n.1)

pub length-unlines :
    (e : Eol) (ls : List Bytes) (t : Bytes) → length ls + length t ≤ length (unlines e ls t)
length-unlines e [] t = omega arith
length-unlines e (l ∷ ls) t = omega (
  arith,
  length-append l (eol_bytes e ++ unlines e ls t),
  length-append (eol_bytes e) (unlines e ls t),
  length-unlines e ls t,
  eol_pos e,
)

pub unlines-append :
    (e : Eol) (ls : List Bytes) (a b : Bytes) → unlines e ls (a ++ b) ≡ unlines e ls a ++ b
unlines-append e [] a b = refl
unlines-append e (l ∷ ls) a b = rw (unlines-append e ls a b) (simp append_assoc)

module _ (message head : Bytes) (q : Request) where
  assign_body_lem :
      (body rest : Bytes)
      → message ≡ head ++ (body ++ rest)
      → length message < 2 ^ 64
      → assign_body message (length head) (length body) q
        ≡ done (record q { body = body; cursor = parse_complete })
  unfolding assign_body
  assign_body_lem body rest m l = ground (
    arith,
    ap length m,
    length-append head (body ++ rest),
    length-append body rest,
    slice-append head body rest,
    ap (slice (length head) (length head + length body)) m,
  )

  finish_lem :
      (body rest : Bytes)
      → message ≡ head ++ (body ++ rest)
      → length message < 2 ^ 64
      → q.body ≡ []
      → BodyFits (lookup (codes "content-length") q.headers) body
      → finish message (length head) q ≡ done (record q { body = body; cursor = parse_complete })
  unfolding finish
  finish_lem body rest m l fresh fits = elim (Option-cases (lookup key q.headers)) [
    | inl e ↦
        let empty : body ≡ [] = rw e at fits in
        rw (finish, e)
          (ap (λ b. done (record q { body = b; cursor = parse_complete })) (fresh ∙ sym empty))
    | inr (v, e) ↦
        let size : from_chars (2 ^ 64) v ≡ some (length body) = rw e at fits in
        rw (finish, e, size) (assign_body_lem body rest m l)
  ]
    where
      key : Bytes
      key = codes "content-length"

abbrev read_by : Bytes → Request
read_by addr = record initial { client_addr = addr }

-- The part of a request in front of its body, the empty line included.
abbrev pub head_of : Eol → Request → Bytes
head_of e r = unlines e (request_lines r) (eol_bytes e)

-- The request line and the headers with `tail` behind them.
abbrev pub with_tail : Eol → Request → Bytes → Bytes
with_tail e r tail = unlines e (request_lines r) (eol_bytes e ++ tail)

pub head_pos : (e : Eol) (r : Request) → 0 < length (head_of e r)
head_pos e r = omega (arith, length-unlines e (request_lines r) (eol_bytes e))

module _ (e : Eol) (r : Request) (tail : Bytes) (w : IsWellFormed r) (c : CanFollow e tail) where
  lines-IsLine : All (IsLine e) (request_lines r)
  lines-IsLine =
      ((w.lines_whole.0, request_line-ne r), header_lines-IsLine e r.headers w.lines_whole.1)

  pub scan-with_tail : scan (length (with_tail e r tail) + 1) (with_tail e r tail) 0 ≡ record {
    parts = request_lines r;
    cursor = length (unlines e (request_lines r) []);
    header_end = length (head_of e r);
  }
  scan-with_tail =
      scan-unlines (length (with_tail e r tail) + 1) e (with_tail e r tail) [] (request_lines r)
        tail refl lines-IsLine c
        (omega (arith, length-unlines e (request_lines r) (eol_bytes e ++ tail)))
      ∙ found_eq (request_lines r) (omega arith) (omega arith)

  apply_parts-lines :
      (n : ℕ) (addr : Bytes)
      → apply_parts (request_lines r) (record (read_by addr) { cursor = n })
        ≡ done (record r { body = []; cursor = n; client_addr = addr })
  unfolding apply_parts
  apply_parts-lines n addr =
      rw
        (
          apply_parts,
          set_request_line_parts_lem r (record (read_by addr) { cursor = n }) w.method_word
              w.url_word,
        )
        (add_headers_lem r.headers _ w.names_distinct)

  -- What is left to do once the lines are read.
  pub parse_request-with_tail :
      (addr : Bytes)
      → parse_request (with_tail e r tail) (record initial { client_addr = addr })
        ≡ finish (with_tail e r tail) (length (head_of e r)) (record r {
          body = [];
          cursor = length (unlines e (request_lines r) []);
          client_addr = addr;
        })
  unfolding parse_request ready
  parse_request-with_tail addr = rw (
    parse_request,
    scan-with_tail,
    apply_parts-lines,
    scan-with_tail,
    ==_ne (length (head_of e r)) 0 (omega (arith, head_pos e r)),
  )

-- A well-formed request in one piece, with any of the three line ends and anything behind it, is
-- read back field by field, and is then ready, where the message is shorter than 2 ^ 64 bytes
-- and a carriage return as line end is not followed by a body that starts with a line feed.
pub parse_request-render :
    (e : Eol) (r : Request) (rest addr : Bytes)
    → IsWellFormed r
    → CanFollow e (r.body ++ rest)
    → length (render e r rest) < 2 ^ 64
    → parse_request (render e r rest) (record initial { client_addr = addr })
      ≡ done (record r { cursor = parse_complete; client_addr = addr })
parse_request-render e r rest addr w c l =
    parse_request-with_tail e r (r.body ++ rest) w c addr
    ∙ finish_lem (render e r rest) (head_of e r) _ r.body rest
        (unlines-append e (request_lines r) (eol_bytes e) (r.body ++ rest)) l refl w.body_fits
