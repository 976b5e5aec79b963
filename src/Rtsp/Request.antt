-- ===== src/Rtsp/Request.antt =====
-- `RTSPRequest` of src/Server/RTSPRequest.h and src/Server/RTSPRequest.cpp.
-- `unordered_map` is an association list. The message is shorter than 2 ^ 64 - 1 bytes, so that
-- a cursor into it is never `PARSE_COMPLETE`.
pub mod Lines
pub mod Loop
pub mod Line
pub mod RoundTrip
pub mod Chunks
mod Tests
use rtp_server.Common.{
  ℕ, zero, suc, ◌+◌, ◌-◌, ◌%◌, ◌^◌, ◌≡◌, refl, Bool, true, false, Option, none, some, List, [], ◌∷◌,
  ◌++◌, map, ltb, leb, ◌==◌, if◌then◌else◌, length, take, drop, Bytes, codes, bytes_eq, find,
  find_at, slice, to_lower,
}
use rtp_server.Exception.{
  Error, bad_request_line, bad_header, bad_content_length, undefined_behaviour, Outcome, done,
  threw,
}
use rtp_server.Util.Decimal.{from_chars}
use rtp_server.Rtsp.Headers.{Headers, lookup, add_value, contains}

pub record Request : Type 0 where
  pub method : Bytes
  pub url : Bytes
  pub version : Bytes
  pub body : Bytes
  pub headers : Headers
  pub cursor : ℕ
  pub client_addr : Bytes

abbrev pub parse_complete : ℕ
parse_complete = 2 ^ 64 - 1

abbrev pub delimiters : List Bytes
delimiters = codes "\r\n" ∷ codes "\r" ∷ codes "\n" ∷ []

abbrev pub unique_headers : List Bytes
unique_headers =
    codes "cseq"
    ∷ codes "content-length"
    ∷ codes "session"
    ∷ codes "timestamp"
    ∷ codes "content-type"
    ∷ []

-- A default-constructed request.
abbrev pub initial : Request
initial = record {
  method = [];
  url = [];
  version = [];
  body = [];
  headers = [];
  cursor = 0;
  client_addr = [];
}

unfoldable pub ready : Request → Bool
ready r = r.cursor == parse_complete

unfoldable pub get_header : Bytes → Request → Bytes
get_header key r = elim (lookup key r.headers) [ some v ↦ v | none ↦ [] ]

pub add_header : Bytes → Request → Outcome Request
add_header line r = elim (find (codes ": ") line) [
  | none ↦ threw bad_header r
  | some i ↦ done (record r {
    headers =
        add_value (contains unique_headers (map to_lower (take i line)))
          (map to_lower (take i line)) (drop (i + 2) line) r.headers;
  })
]

-- `set_request_line_parts`, one round of its loop at a time; `i` is where the next part begins.
set_version : Bytes → ℕ → Request → Outcome Request
set_version line i r = done (record r { version = slice i (length line) line })

set_url : Bytes → ℕ → Request → Outcome Request
set_url line i r = elim (find_at (b' ' ∷ []) line i) [
  | none ↦ threw bad_request_line r
  | some j ↦ set_version line (j + 1) (record r { url = slice i j line })
]

pub set_request_line_parts : Bytes → Request → Outcome Request
set_request_line_parts line r = elim (find_at (b' ' ∷ []) line 0) [
  | none ↦ threw bad_request_line r
  | some j ↦ set_url line (j + 1) (record r { method = slice 0 j line })
]

-- The loop over `delimiters`: the nearest one, and the longest where two begin alike.
pub nearest : Bytes → ℕ → List Bytes → ℕ × ℕ → ℕ × ℕ
nearest message cursor [] best = best
nearest message cursor (d ∷ ds) (part_end, size) =
    nearest message cursor ds (elim (find_at d message cursor) [
      | none ↦ (part_end, size)
      | some pos ↦ if ltb pos part_end then (pos, length d) else (part_end, size)
    ])

pub next_delimiter : Bytes → ℕ → ℕ × ℕ
next_delimiter message cursor = nearest message cursor delimiters (length message, 0)

pub record Scan : Type 0 where
  pub parts : List Bytes
  pub cursor : ℕ
  -- 0 where no empty line was seen
  pub header_end : ℕ

-- The `while (1)` loop. Each round passes a delimiter, so `length message + 1` rounds are enough.
pub scan : ℕ → Bytes → ℕ → Scan
scan zero message cursor = record { parts = []; cursor = cursor; header_end = 0 }
scan (suc f) message cursor =
    let (part_end, size) = next_delimiter message cursor in
    let rest = scan f message (part_end + size) in
    if size == 0
    then record { parts = []; cursor = cursor; header_end = 0 }
    else if part_end == cursor
    then record { parts = []; cursor = cursor; header_end = part_end + size }
    else record rest { parts = slice cursor part_end message ∷ rest.parts }

pub add_headers : List Bytes → Request → Outcome Request
add_headers [] r = done r
add_headers (p ∷ ps) r = elim (add_header p r) [
  | done r' ↦ add_headers ps r'
  | threw e r' ↦ threw e r'
]

pub apply_parts : List Bytes → Request → Outcome Request
apply_parts [] r = done r
apply_parts (p ∷ ps) r = elim (set_request_line_parts p r) [
  | done r' ↦ add_headers ps r'
  | threw e r' ↦ threw e r'
]

-- `body.assign` reads past the message where the sum before it has wrapped around.
pub assign_body : Bytes → ℕ → ℕ → Request → Outcome Request
assign_body message header_end n r =
    if ltb (length message) ((header_end + n) % 2 ^ 64)
    then done (record r { cursor = header_end })
    else if leb (header_end + n) (length message)
    then done
        (record r { body = slice header_end (header_end + n) message; cursor = parse_complete })
    else threw undefined_behaviour r

-- What follows the loops, behind an empty line.
pub finish : Bytes → ℕ → Request → Outcome Request
finish message header_end r = elim (lookup (codes "content-length") r.headers) [
  | none ↦ done (record r { cursor = parse_complete })
  | some v ↦ elim (from_chars (2 ^ 64) v) [
    | none ↦ threw bad_content_length r
    | some n ↦ assign_body message header_end n r
  ]
]

pub parse_request : Bytes → Request → Outcome Request
parse_request message r =
    let found = scan (length message + 1) message r.cursor in
    if ready r
    then done r
    else elim (apply_parts found.parts (record r { cursor = found.cursor })) [
      | threw e r' ↦ threw e r'
      | done r' ↦ if found.header_end == 0 then done r' else finish message found.header_end r'
    ]
