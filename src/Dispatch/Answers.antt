-- ===== src/Dispatch/Answers.antt =====
-- What the handlers answer, and what they leave in the store.
use rtp_server.Common.{
  ℕ, ◌≡◌, refl, subst, ap, sym, ◌∙◌, inl, inr, none, some, Option-cases, List, [], ◌∷◌,
  if◌then◌else◌, arith, Bytes, codes, bytes_eq_refl, find, true,
}
use rtp_server.Exception.{Error, bad_session, bad_status_code, Result, ok, err, is_caught}
use rtp_server.Util.Split.{split}
use rtp_server.Rtsp.Headers.{Headers, lookup}
use rtp_server.Rtsp.Request.{Request, get_header}
use rtp_server.Rtsp.Response.{Response, empty_response, set_status, set_header, get_status_string}
use rtp_server.Session.{TrackOps, Session, teardown}
use rtp_server.Session.Store.{Store, find_session, get_session, create_session}
use rtp_server.Session.Store.Ids.{get_session-teardown}
use rtp_server.Dispatch.{
  get_endpoint_from_url, describe_media, handle_describe, Context, Opener, World, write_session,
  try_transports, setup_track, find_or_create, handle_setup, handle_play, handle_pause,
  handle_teardown,
}

describe_media_lem :
    (date sdp : Bytes) (q : Request)
    → (r : Response) × (describe_media date sdp q ≡ ok r)
      × (r.status ≡ codes "200 OK")
      × (r.body ≡ sdp)
unfolding describe_media set_header set_status get_status_string
describe_media_lem date sdp q =
    elim (Option-cases (find (codes "application/sdp") (get_header (codes "accept") q))) [
      | inl e ↦ rw (describe_media, e) (_, refl, refl, refl)
      | inr (i, e) ↦ rw (describe_media, e) (_, refl, refl, refl)
    ]

-- For every request whose address names a medium: the answer to DESCRIBE is 200 OK with the
-- description as body, whatever the Accept header says.
pub handle_describe_lem :
    (media : Headers) (date : Bytes) (q : Request) (c : ℕ) (s sdp : Bytes)
    → get_endpoint_from_url q.url ≡ c ∷ s
    → lookup (c ∷ s) media ≡ some sdp
    → (r : Response) × (handle_describe media date q ≡ ok r)
      × (r.status ≡ codes "200 OK")
      × (r.body ≡ sdp)
unfolding handle_describe
handle_describe_lem media date q c s sdp e m =
    rw (handle_describe, e, m) (describe_media_lem date sdp q)

module _ (ops : TrackOps) (opener : Opener ops.Track) where
  -- A SETUP request for a whole presentation, whose path has one part, throws for the status code,
  -- and changes nothing.
  pub handle_setup-aggregate :
      (tries : ℕ) (random : ℕ → ℕ) (date : Bytes) (q : Request) (w : World ops opener)
      (basename : Bytes)
      → split (get_endpoint_from_url q.url) b'/' ≡ basename ∷ []
      → handle_setup ops opener tries random date q w ≡ (err bad_status_code, w)
  unfolding handle_setup set_status get_status_string
  handle_setup-aggregate tries random date q w basename e = rw (handle_setup, e)

  -- Each of the transport values, tried from the state `s` on, is refused with an exception, and
  -- `s'` is what the tries leave.
  pub data AreRefused (open_with : Bytes → opener.State → Result (ops.Track × Bytes) × opener.State)
      (s' : opener.State) : List Bytes → opener.State → Type 0 where
    none_left : AreRefused open_with s' [] s'
    refused :
        {v : Bytes} {vs : List Bytes} {s s₁ : opener.State} (e : Error)
        → open_with v s ≡ (err e, s₁)
        → is_caught e ≡ true
        → AreRefused open_with s' vs s₁
        → AreRefused open_with s' (v ∷ vs) s

  try_transports-AreRefused :
      {open_with : Bytes → opener.State → Result (ops.Track × Bytes) × opener.State}
      {s' : opener.State} {vs : List Bytes} {s : opener.State} (first : Error)
      → AreRefused open_with s' vs s
      → try_transports ops opener open_with vs (some first) s ≡ (err first, s')
  unfolding try_transports
  try_transports-AreRefused first none_left = refl
  try_transports-AreRefused first (refused e failed caught rest) =
      rw (try_transports, failed, caught, failed) (try_transports-AreRefused first rest)

  try_transports-refused :
      {open_with : Bytes → opener.State → Result (ops.Track × Bytes) × opener.State}
      {s' s₁ : opener.State} {vs : List Bytes} (v : Bytes) (s : opener.State) (e : Error)
      → open_with v s ≡ (err e, s₁)
      → is_caught e ≡ true
      → AreRefused open_with s' vs s₁
      → try_transports ops opener open_with (v ∷ vs) none s ≡ (err e, s')
  unfolding try_transports
  try_transports-refused v s e failed caught rest =
      rw (try_transports, failed, caught, failed) (try_transports-AreRefused e rest)

  -- Where a SETUP request has a path of two parts and no session, a session is created for it, and
  -- each of the transports that it offers, one at least, is refused in turn: it throws the exception
  -- of the first one, the new session stays in the store, and the sockets and files are as the tries
  -- leave them.
  pub handle_setup-AreRefused :
      (tries : ℕ) (random : ℕ → ℕ) (date : Bytes) (q : Request) (w : World ops opener)
      (basename control_id id v : Bytes) (vs : List Bytes) (drawn : ℕ) (st : Store ops)
      (s : Session ops) (e : Error) (files₁ files : opener.State)
      → split (get_endpoint_from_url q.url) b'/' ≡ basename ∷ control_id ∷ []
      → get_header (codes "session") q ≡ []
      → create_session ops tries random w.drawn w.store ≡ ok ((id, drawn), st)
      → get_session ops id st ≡ ok s
      → split (get_header (codes "transport") q) b',' ≡ v ∷ vs
      → opener.open_track q.client_addr basename control_id v w.files ≡ (err e, files₁)
      → is_caught e ≡ true
      → AreRefused (opener.open_track q.client_addr basename control_id) files vs files₁
      → handle_setup ops opener tries random date q w
        ≡ (err e, record { store = st; drawn = drawn; files = files })
  unfolding handle_setup find_or_create setup_track
  handle_setup-AreRefused tries random date q w basename control_id id v vs drawn st s e files₁
        files two none_sent made found offered failed caught rest =
      rw
        (
          handle_setup,
          two,
          none_sent,
          find_or_create,
          made,
          found,
          setup_track,
          offered,
          try_transports-refused v w.files e failed caught rest,
          offered,
          try_transports-refused v w.files e failed caught rest,
        )
        refl

  find_session_found :
      (id : Bytes) (st : Store ops) (s : Session ops)
      → get_session ops id st ≡ ok s
      → find_session ops id st.sessions ≡ some s
  unfolding get_session
  find_session_found id st s e = elim (Option-cases (find_session ops id st.sessions)) [
    | inl absent ↦ absurd (ground (arith, rw (get_session, absent) at e))
    | inr (t, found) ↦ found ∙ ap some (same t (rw (get_session, found) at e))
  ]
    where
      same : (t : Session ops) → (if t.is_active then ok t else err bad_session) ≡ ok s → t ≡ s
      same t h = ground (arith, h)

  -- For a request whose session is not in the map or is torn down, PLAY, PAUSE and TEARDOWN throw
  -- and change nothing.
  pub handlers_unknown :
      (c : Context ops.Time) (q : Request) (w : World ops opener)
      → get_session ops (get_header (codes "session") q) w.store ≡ err bad_session
      → (handle_play ops opener c q w ≡ (err bad_session, w))
        × (handle_pause ops opener c.date q w ≡ (err bad_session, w))
        × (handle_teardown ops opener q w ≡ (err bad_session, w))
  unfolding handle_play handle_pause handle_teardown
  handlers_unknown c q w e = rw (handle_play, handle_pause, handle_teardown, e) (refl, refl, refl)

  -- Where a session is found, TEARDOWN answers with an empty response, and every later PLAY, PAUSE or
  -- TEARDOWN request with the same Session header throws and changes nothing.
  pub handle_teardown_lem :
      (c : Context ops.Time) (q : Request) (w : World ops opener) (s : Session ops)
      → get_session ops (get_header (codes "session") q) w.store ≡ ok s
      → let w' = (handle_teardown ops opener q w).1 in
        ((handle_teardown ops opener q w).0 ≡ ok empty_response)
        × ((q' : Request)
            → get_header (codes "session") q' ≡ get_header (codes "session") q
            → (handle_play ops opener c q' w' ≡ (err bad_session, w'))
              × (handle_pause ops opener c.date q' w' ≡ (err bad_session, w'))
              × (handle_teardown ops opener q' w' ≡ (err bad_session, w')))
  unfolding handle_teardown write_session
  handle_teardown_lem c q w s e =
      subst Refused (sym (rw (handle_teardown, e)))
        (refl, λ q' same. handlers_unknown c q' after (rw same gone))
    where
      id : Bytes
      id = get_header (codes "session") q

      after : World ops opener
      after = write_session ops opener id (teardown ops s) w

      Refused : Result Response × World ops opener → Type 0
      Refused r =
          (r.0 ≡ ok empty_response)
          × ((q' : Request)
              → get_header (codes "session") q' ≡ id
              → (handle_play ops opener c q' r.1 ≡ (err bad_session, r.1))
                × (handle_pause ops opener c.date q' r.1 ≡ (err bad_session, r.1))
                × (handle_teardown ops opener q' r.1 ≡ (err bad_session, r.1)))

      gone : get_session ops id after.store ≡ err bad_session
      gone =
          get_session-teardown ops id id s w.store (find_session_found id w.store s e)
          ∙ rw (bytes_eq_refl id)
