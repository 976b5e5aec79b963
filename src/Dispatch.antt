-- ===== src/Dispatch.antt =====
-- The request handlers of src/Server/dispatch.h and src/Server/dispatch.cpp, and
-- `Server::dispatch` of src/Server/Server.cpp.
pub mod Endpoint
pub mod Answers
pub mod Setup
pub mod Runs
pub mod Tests
use rtp_server.Common.{
  ℕ, zero, suc, ◌+◌, ◌-◌, Bool, true, false, Option, none, some, List, [], ◌∷◌, ◌++◌, ltb,
  if◌then◌else◌, length, drop, codes, Bytes, bytes_eq, find,
}
use rtp_server.Exception.{
  Error, is_caught, bad_method, bad_optional_access, Result, ok, err, ◌>>=◌, Outcome, done, threw,
}
use rtp_server.Util.Decimal.{int_to_string}
use rtp_server.Util.Split.{split, find_nth_of}
use rtp_server.Util.Npt.{parse_range_header}
use rtp_server.Rtsp.Headers.{Headers, lookup}
use rtp_server.Rtsp.Request.{Request, get_header}
use rtp_server.Rtsp.Response.{
  StatusCode, ok_200, not_found, not_acceptable, aggregate_operation_not_allowed, Response,
  empty_response, set_status, set_header, marshal,
}
use rtp_server.Session.{TrackOps, Session, teardown, play, play_between, pause}
use rtp_server.Session.Store.{Store, get_session, create_session, put_session}

unfoldable pub get_endpoint_from_url : Bytes → Bytes
get_endpoint_from_url url = elim (find_nth_of url b'/' 3) [
  | none ↦ []
  | some i ↦ if ltb i (length url - 1) then drop (i + 1) url else []
]

-- The response of a handler is lost where it throws.
abbrev answer : Outcome Response → Result Response
answer (done r) = ok r
answer (threw e _) = err e

abbrev with_status : StatusCode → Response → Result Response
with_status sc r = answer (set_status sc r)

-- What the handlers use besides the sessions: the media by name (with their descriptions), the date,
-- `std::from_chars` into a `float` and the text of a range of times.
pub record Context (Time : Type 0) : Type 0 where
  pub by_basename : Headers
  pub date : Bytes
  pub read_float : Bytes → Option Time
  pub format_range : Time × Time → Bytes

abbrev with_cseq : Request → Response → Response
with_cseq q r = set_header (codes "CSeq") (get_header (codes "cseq") q) r

abbrev with_date : Bytes → Response → Response
with_date date r = set_header (codes "Date") date r

-- `handle_describe` where the media is found.
pub describe_media : Bytes → Bytes → Request → Result Response
describe_media date sdp q = do
  r ← elim (find (codes "application/sdp") (get_header (codes "accept") q)) [
    | none ↦ with_status not_acceptable empty_response
    | some _ ↦ ok empty_response
  ]
  with_status ok_200 (
      set_header (codes "Content-Length") (int_to_string (length sdp)) (
        set_header (codes "Content-Type") (codes "application/sdp")
          (with_date date (with_cseq q (record r { body = sdp })))))

unfoldable pub handle_describe : Headers → Bytes → Request → Result Response
unfolding describe_media
handle_describe by_basename date q = elim (get_endpoint_from_url q.url) [
  | [] ↦ with_status not_found empty_response
  | c ∷ s ↦ elim (lookup (c ∷ s) by_basename) [
    | none ↦ with_status not_found empty_response
    | some sdp ↦ describe_media date sdp q
  ]
]

unfoldable pub handle_options : Request → Result Response
handle_options q = with_status ok_200 (
    set_header (codes "Public") (codes "DESCRIBE, SETUP, TEARDOWN, PLAY, PAUSE")
      (with_cseq q empty_response))

-- `Session::emplace_track`. `open_track` is the constructor of `Track`, on the client's address, the
-- two parts of the path and a transport value, with the sockets and files as its state; it yields
-- the track and the text of its transport. Where the vector `is_full`, which the library decides
-- by the number of tracks, it grows behind the constructor: `move_tracks` moves the tracks that are
-- there to a new place and destroys the old ones.
pub record Opener (Track : Type 0) : Type 1 where
  pub State : Type 0
  pub open_track : Bytes → Bytes → Bytes → Bytes → State → Result (Track × Bytes) × State
  pub is_full : ℕ → Bool
  pub move_tracks : List Track → State → List Track × State

module _ (ops : TrackOps) (opener : Opener ops.Track) where
  pub record World : Type 0 where
    pub store : Store ops
    -- how many random numbers are drawn
    pub drawn : ℕ
    pub files : opener.State

  pub write_session : Bytes → Session ops → World → World
  write_session id s w = record w {
    store = record w.store { sessions = put_session ops id s w.store.sessions };
  }

  -- The tracks of a session, when one more is put behind them.
  unfoldable pub grow : List ops.Track → opener.State → List ops.Track × opener.State
  grow ts s = if opener.is_full (length ts) then opener.move_tracks ts s else (ts, s)

  -- The loop over the transport values, with the first exception. What is no exception of the code
  -- ends it.
  pub try_transports :
      (Bytes → opener.State → Result (ops.Track × Bytes) × opener.State)
      → List Bytes
      → Option Error
      → opener.State
      → Result (ops.Track × Bytes) × opener.State
  try_transports open_with [] none s = (err bad_optional_access, s)
  try_transports open_with [] (some e) s = (err e, s)
  try_transports open_with (v ∷ vs) first s =
      let (r, s') = open_with v s in
      elim r [
        | ok t ↦ (ok t, s')
        | err e ↦
            let rest =
              try_transports open_with vs (elim first [ none ↦ some e | some e₁ ↦ some e₁ ]) s' in
            if is_caught e then rest else (err e, s')
      ]

  -- `handle_setup` from the loop on, for the session `s`, which is called `id`.
  pub setup_track :
      Bytes → Bytes → Bytes → Request → Bytes → Session ops → World → Result Response × World
  setup_track date basename control_id q id s w =
      let (r, files) =
        try_transports (opener.open_track q.client_addr basename control_id)
          (split (get_header (codes "transport") q) b',') none w.files in
      elim r [
        | err e ↦ (err e, record w { files = files })
        | ok (t, text) ↦
            let (tracks, files') = grow s.tracks files in
            (
              with_status ok_200 (
                  set_header (codes "Transport") text (
                    set_header (codes "Session") s.id
                      (with_date date (with_cseq q empty_response)))),
              write_session id (record s { tracks = tracks ++ t ∷ [] })
                  (record w { files = files' }),
            )
      ]

  -- `session_id.empty() ? Session::get() : Session::get(session_id)`, with the id. `tries` and
  -- `random` are those of `create_session`.
  pub find_or_create : ℕ → (ℕ → ℕ) → Bytes → World → Result ((Bytes × Session ops) × World)
  find_or_create tries random [] w = elim (create_session ops tries random w.drawn w.store) [
    | err e ↦ err e
    | ok ((id, drawn), store) ↦ do
      s ← get_session ops id store
      ok ((id, s), record w { store = store; drawn = drawn })
  ]
  find_or_create tries random (c ∷ id) w = do
    s ← get_session ops (c ∷ id) w.store
    ok ((c ∷ id, s), w)

  unfoldable pub handle_setup : ℕ → (ℕ → ℕ) → Bytes → Request → World → Result Response × World
  handle_setup tries random date q w = elim (split (get_endpoint_from_url q.url) b'/') [
    | [] ↦ (with_status not_found empty_response, w)
    | basename ∷ [] ↦ (with_status aggregate_operation_not_allowed empty_response, w)
    | basename ∷ control_id ∷ [] ↦
        elim (find_or_create tries random (get_header (codes "session") q) w) [
          | err e ↦ (err e, w)
          | ok ((id, s), w') ↦ setup_track date basename control_id q id s w'
        ]
    | _ ∷ _ ∷ _ ∷ _ ↦ (with_status not_found empty_response, w)
  ]

  -- What `handle_play` and `handle_pause` answer.
  pub played : Context ops.Time → Request → ops.Time × ops.Time → Result Response
  played c q range = with_status ok_200 (
      set_header (codes "Range") (codes "npt=" ++ c.format_range range)
        (with_date c.date (with_cseq q empty_response)))

  unfoldable pub handle_play : Context ops.Time → Request → World → Result Response × World
  handle_play c q w =
      let id = get_header (codes "session") q in
      elim (get_session ops id w.store) [
        | err e ↦ (err e, w)
        | ok s ↦ elim (get_header (codes "range") q) [
          | [] ↦ let (range, s') = play ops s in (played c q range, write_session id s' w)
          | b ∷ value ↦ elim (parse_range_header ops.Time ops.zero_time c.read_float (b ∷ value)) [
            | err e ↦ (err e, w)
            | ok (npt_begin, npt_end) ↦
                let (range, s') = play_between ops npt_begin npt_end s in
                (played c q range, write_session id s' w)
          ]
        ]
      ]

  unfoldable pub handle_pause : Bytes → Request → World → Result Response × World
  handle_pause date q w =
      let id = get_header (codes "session") q in
      elim (get_session ops id w.store) [
        | err e ↦ (err e, w)
        | ok s ↦ (
          with_status ok_200 (with_date date (with_cseq q empty_response)),
          write_session id (pause ops s) w,
        )
      ]

  unfoldable pub handle_teardown : Request → World → Result Response × World
  handle_teardown q w =
      let id = get_header (codes "session") q in
      elim (get_session ops id w.store) [
        | err e ↦ (err e, w)
        | ok s ↦ (ok empty_response, write_session id (teardown ops s) w)
      ]

  -- The map `rtsp`, by the method of the request.
  unfoldable pub handle : ℕ → (ℕ → ℕ) → Context ops.Time → Request → World → Result Response × World
  handle tries random c q w =
      if bytes_eq q.method (codes "DESCRIBE")
      then (handle_describe c.by_basename c.date q, w)
      else if bytes_eq q.method (codes "SETUP")
      then handle_setup tries random c.date q w
      else if bytes_eq q.method (codes "OPTIONS")
      then (handle_options q, w)
      else if bytes_eq q.method (codes "PLAY")
      then handle_play c q w
      else if bytes_eq q.method (codes "PAUSE")
      then handle_pause c.date q w
      else if bytes_eq q.method (codes "TEARDOWN")
      then handle_teardown q w
      else (err bad_method, w)

  -- `Server::dispatch`; `iterate` is the order in which the header map is walked.
  unfoldable pub dispatch :
      (Headers → Headers)
      → ℕ
      → (ℕ → ℕ)
      → Context ops.Time
      → Request
      → World
      → Result Response × World
  unfolding handle
  dispatch iterate tries random c q w =
      let (r, w') = handle tries random c q w in
      ((do response ← r; ok (marshal iterate response)), w')
