-- ===== src/Dispatch/Setup.antt =====
-- What `handle_setup` does where the client offers a transport that can be opened.
use rtp_server.Common.{
  ℕ, ◌≡◌, refl, Option, true, none, some, List, [], ◌∷◌, ◌++◌, Bytes, codes, bytes_eq,
}
use rtp_server.Exception.{Error, is_caught, Result, ok, err}
use rtp_server.Util.Split.{split}
use rtp_server.Rtsp.Headers.{lookup, insert_or_assign}
use rtp_server.Rtsp.Request.{Request, get_header}
use rtp_server.Rtsp.Response.{Response, set_status, set_header, get_status_string}
use rtp_server.Session.{TrackOps, Session}
use rtp_server.Dispatch.{
  get_endpoint_from_url, Opener, World, write_session, try_transports, setup_track, find_or_create,
  handle_setup, grow,
}

-- Of the transport values, tried from the state `s` on, all before one are refused with an
-- exception; that one gives the track, and leaves the state `s'`.
pub data Chosen {State Track : Type 0} (open_with : Bytes → State → Result (Track × Bytes) × State)
    (t : Track × Bytes) (s' : State) : List Bytes → State → Type 0 where
  taken :
      {v : Bytes} {vs : List Bytes} {s : State}
      → open_with v s ≡ (ok t, s')
      → Chosen open_with t s' (v ∷ vs) s
  passed :
      {v : Bytes} {vs : List Bytes} {s s₁ : State} {e : Error}
      → open_with v s ≡ (err e, s₁)
      → is_caught e ≡ true
      → Chosen open_with t s' vs s₁
      → Chosen open_with t s' (v ∷ vs) s

module _ (ops : TrackOps) (opener : Opener ops.Track) where
  try_transports-Chosen :
      {open_with : Bytes → opener.State → Result (ops.Track × Bytes) × opener.State}
      {t : ops.Track × Bytes} {s' : opener.State} {vs : List Bytes} {s : opener.State}
      (first : Option Error)
      → Chosen open_with t s' vs s
      → try_transports ops opener open_with vs first s ≡ (ok t, s')
  unfolding try_transports
  try_transports-Chosen none (taken e) = rw (try_transports, e, e) refl
  try_transports-Chosen (some x) (taken e) = rw (try_transports, e, e) refl
  try_transports-Chosen none (passed {e = x} e caught c) =
      rw (try_transports, e, caught, e) (try_transports-Chosen (some x) c)
  try_transports-Chosen (some x) (passed e caught c) =
      rw (try_transports, e, caught, e) (try_transports-Chosen (some x) c)

  -- A SETUP request whose path has two parts, for a session that is found or created, offers
  -- transports of which a track can be opened. The answer is 200 OK; its Transport header is that of
  -- the first transport that is not refused, its Session header names the session, and its CSeq is
  -- that of the request. The track is put behind those of the session, which `grow` may have moved,
  -- with what that does to the sockets; nothing else changes.
  pub handle_setup_lem :
      (tries : ℕ) (random : ℕ → ℕ) (date : Bytes) (q : Request) (w w' : World ops opener)
      (basename control_id id : Bytes) (s : Session ops) (t : ops.Track) (text : Bytes)
      (files : opener.State)
      → split (get_endpoint_from_url q.url) b'/' ≡ basename ∷ control_id ∷ []
      → find_or_create ops opener tries random (get_header (codes "session") q) w ≡ ok ((id, s), w')
      → Chosen
          (opener.open_track q.client_addr basename control_id)
          (t, text)
          files
          (split (get_header (codes "transport") q) b',')
          w'.files
      → (r : Response) × (handle_setup ops opener tries random date q w ≡ (
        ok r,
        write_session ops opener id
            (record s { tracks = (grow ops opener s.tracks files).0 ++ t ∷ [] })
            (record w' { files = (grow ops opener s.tracks files).1 }),
      ))
        × (r.status ≡ codes "200 OK")
        × (lookup (codes "Transport") r.headers ≡ some text)
        × (lookup (codes "Session") r.headers ≡ some s.id)
        × (lookup (codes "CSeq") r.headers ≡ some (get_header (codes "cseq") q))
  unfolding handle_setup setup_track set_status set_header get_status_string lookup insert_or_assign
      bytes_eq
  handle_setup_lem tries random date q w w' basename control_id id s t text files two found chosen =
      rw
        (
          handle_setup,
          two,
          found,
          setup_track,
          try_transports-Chosen none chosen,
          try_transports-Chosen none chosen,
        )
        (_, refl, refl, refl, refl, refl)
