-- ===== src/Rtsp/Response.antt =====
-- `RTSPResponse` of src/Server/RTSPResponse.h and src/Server/RTSPResponse.cpp.
pub mod Text
pub mod Status
mod Tests
use rtp_server.Common.{ℕ, Option, none, some, List, [], ◌∷◌, ◌++◌, length, Bytes, codes}
use rtp_server.Exception.{Error, bad_status_code, Result, ok, err, Outcome, done, threw}
use rtp_server.Rtsp.Headers.{Headers, lookup, insert_or_assign}

pub data StatusCode : Type 0 where
  ok_200 not_found not_acceptable aggregate_operation_not_allowed : StatusCode
  only_aggregate_operation_allowed : StatusCode

pub status_number : StatusCode → ℕ
status_number ok_200 = 200
status_number not_found = 404
status_number not_acceptable = 406
status_number aggregate_operation_not_allowed = 459
status_number only_aggregate_operation_allowed = 460

pub record Response : Type 0 where
  pub body : Bytes
  pub buffer : Bytes
  pub status : Bytes
  pub headers : Headers

-- A default-constructed response.
abbrev pub empty_response : Response
empty_response = record { body = []; buffer = []; status = []; headers = [] }

-- The map `status_strings`, and the `throw` where it has no entry.
unfoldable pub get_status_string : StatusCode → Result Bytes
get_status_string ok_200 = ok (codes "200 OK")
get_status_string not_found = ok (codes "404 Not Found")
get_status_string not_acceptable = ok (codes "406 Not Acceptable")
get_status_string aggregate_operation_not_allowed = err bad_status_code
get_status_string only_aggregate_operation_allowed = err bad_status_code

unfoldable pub set_status : StatusCode → Response → Outcome Response
unfolding get_status_string
set_status sc r = elim (get_status_string sc) [
  | ok s ↦ done (record r { status = s })
  | err e ↦ threw e r
]

unfoldable pub set_header : Bytes → Bytes → Response → Response
unfolding insert_or_assign
set_header key value r = record r { headers = insert_or_assign key value r.headers }

unfoldable pub append_header : Bytes → Bytes → Response → Response
unfolding lookup set_header
append_header key value r = elim (lookup key r.headers) [
  | none ↦ set_header key value r
  | some v ↦ set_header key (v ++ (codes "," ++ value)) r
]

-- The loop over the headers.
header_lines : Headers → Bytes
header_lines [] = []
header_lines ((k, v) ∷ hs) = (k ++ (codes ": " ++ v)) ++ (codes "\n" ++ header_lines hs)

-- `iterate` is the order in which the map is walked, which the standard leaves open.
unfoldable pub marshal : (Headers → Headers) → Response → Response
unfolding header_lines
marshal iterate r = record r {
  buffer =
      codes "RTSP/1.0 "
      ++ (r.status ++ (codes "\n" ++ (header_lines (iterate r.headers) ++ (codes "\n" ++ r.body))));
}

unfoldable pub get_data : Response → Bytes
get_data r = r.buffer

unfoldable pub get_length : Response → ℕ
get_length r = length r.buffer
