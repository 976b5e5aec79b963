-- ===== src/Rtsp/Response/Status.antt =====
-- Which status codes a response can carry, and what its headers are after an update.
use rtp_server.Common.{
  ◌≡◌, refl, ◌⊎◌, inl, inr, true, none, some, ◌++◌, arith, Bytes, codes, is_prefix, if◌then◌else◌,
  Option-cases, bytes_eq, bytes_eq_iff,
}
use rtp_server.Exception.{bad_status_code, done, threw}
use rtp_server.Util.Decimal.{to_chars}
use rtp_server.Rtsp.Headers.{lookup, lookup-insert_or_assign}
use rtp_server.Rtsp.Response.{
  StatusCode, ok_200, not_found, not_acceptable, aggregate_operation_not_allowed,
  only_aggregate_operation_allowed, status_number, Response, set_status, append_header, set_header,
}

-- The status line begins with the number of the code, for 200, 404 and 406; for 459 and 460, which
-- the enumeration declares too, `set_status` throws and leaves the response as it was.
pub set_status_lem :
    (sc : StatusCode) (r : Response)
    → ((q : Response) × (set_status sc r ≡ done q)
        × (is_prefix (to_chars (status_number sc)) q.status ≡ true)
        × (q.headers ≡ r.headers)
        × (q.body ≡ r.body))
      ⊎ ((set_status sc r ≡ threw bad_status_code r)
          × ((status_number sc ≡ 459) ⊎ (status_number sc ≡ 460)))
unfolding set_status status_number is_prefix to_chars
set_status_lem ok_200 r = inl (record r { status = codes "200 OK" }, refl, refl, refl, refl)
set_status_lem not_found r =
    inl (record r { status = codes "404 Not Found" }, refl, refl, refl, refl)
set_status_lem not_acceptable r =
    inl (record r { status = codes "406 Not Acceptable" }, refl, refl, refl, refl)
set_status_lem aggregate_operation_not_allowed r = inr (refl, inl refl)
set_status_lem only_aggregate_operation_allowed r = inr (refl, inr refl)

-- After `append_header` the header has the value, or its old values with the new one behind a
-- comma; every other header, the body and the status are as before.
pub append_header_lem :
    (key value k : Bytes) (r : Response)
    → (lookup k (append_header key value r).headers ≡ (
        if bytes_eq key k
        then (elim (lookup k r.headers) [
          | none ↦ some value
          | some v ↦ some (v ++ (codes "," ++ value))
        ])
        else lookup k r.headers))
      × ((append_header key value r).body ≡ r.body)
      × ((append_header key value r).status ≡ r.status)
unfolding append_header set_header
append_header_lem key value k r = elim (Option-cases (lookup key r.headers)) [
  | inl e ↦
      rw (append_header, e)
        (ground (arith, e, bytes_eq_iff key k, lookup-insert_or_assign key value k r.headers))
  | inr (v, e) ↦
      rw (append_header, e)
        (ground (
          arith,
          e,
          bytes_eq_iff key k,
          lookup-insert_or_assign key (v ++ (codes "," ++ value)) k r.headers,
        ))
]
