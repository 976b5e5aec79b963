-- ===== src/Dispatch/Runs/Handled.antt =====
-- That all handlers write only to sessions that are active, and add new ones.
use Prim.Native.String.{String}
use rtp_server.Common.{
  ℕ, zero, suc, ◌+◌, ◌≡◌, refl, subst, inl, inr, Bool, true, false, Option, none, some,
  Option-cases, List, [], ◌∷◌, ◌++◌, if◌then◌else◌, Bool-cases, Bytes, codes, bytes_eq,
}
use rtp_server.Exception.{Result, ok, IsOk, IsOk-eq, Result-cases}
use rtp_server.Util.Split.{split}
use rtp_server.Util.Npt.{parse_range_header}
use rtp_server.Rtsp.Headers.{Headers}
use rtp_server.Rtsp.Request.{Request, get_header}
use rtp_server.Rtsp.Response.{Response}
use rtp_server.Session.{TrackOps, Session, teardown, play, play_between, pause}
use rtp_server.Session.Store.{
  generate_id, least_from, Sessions, find_session, Store, get_session, fresh_id, insert_session,
  create_session,
}
use rtp_server.Session.Store.Ids.{found-IsLeast}
use rtp_server.Session.Store.Writes.{Writes, nothing, wrote, created}
use rtp_server.Dispatch.{
  get_endpoint_from_url, Context, Opener, World, write_session, try_transports, setup_track,
  find_or_create, grow, handle_setup, handle_play, handle_pause, handle_teardown, handle, dispatch,
}

module _ (ops : TrackOps) where
  -- What a lookup gives is in the map, and active.
  get_session-IsOk :
      (id : Bytes) (st : Store ops)
      → IsOk
          (λ (s : Session ops). (find_session ops id st.sessions ≡ some s) × (s.is_active ≡ true))
          (get_session ops id st)
  unfolding get_session
  get_session-IsOk id st = elim (Option-cases (find_session ops id st.sessions)) [
    | inl absent ↦ rw (get_session, absent) tt
    | inr (t, found) ↦ elim (Bool-cases t.is_active) [
      | inl live ↦ rw (get_session, found, live) (refl, refl)
      | inr gone ↦ rw (get_session, found, gone) tt
    ]
  ]

  pub get_session-found :
      (id : Bytes) (st : Store ops) (s : Session ops)
      → get_session ops id st ≡ ok s
      → (find_session ops id st.sessions ≡ some s) × (s.is_active ≡ true)
  get_session-found id st s e = IsOk-eq _ (get_session-IsOk id st) e

  abbrev IsFree : Sessions ops → Option (Bytes × ℕ) → Type 0
  IsFree ss none = Unit
  IsFree ss (some (id, m)) = find_session ops id ss ≡ none

  fresh_id-IsFree :
      (tries : ℕ) (random : ℕ → ℕ) (n : ℕ) (ss : Sessions ops)
      → IsFree ss (fresh_id ops tries random n ss)
  unfolding fresh_id
  fresh_id-IsFree zero random n ss = tt
  fresh_id-IsFree (suc tries) random n ss =
      elim (Option-cases (find_session ops (generate_id (random n)) ss)) [
        | inl free ↦ rw (fresh_id, free) free
        | inr (s, taken) ↦ rw (fresh_id, taken) (fresh_id-IsFree tries random (n + 1) ss)
      ]

  create_session-IsOk :
      (tries : ℕ) (random : ℕ → ℕ) (n : ℕ) (st : Store ops)
      → IsOk
          (λ (r : (Bytes × ℕ) × Store ops). Writes ops st r.1)
          (create_session ops tries random n st)
  unfolding create_session insert_session
  create_session-IsOk tries random n st =
      elim (Option-cases (fresh_id ops tries random n st.sessions)) [
        | inl absent ↦ rw (create_session, absent) tt
        | inr (made, drawn) ↦ elim (Option-cases (least_from 0 none st.groups)) [
          | inl no_group ↦ rw (create_session, drawn, insert_session, no_group) tt
          | inr (i, least) ↦
              rw (create_session, drawn, insert_session, least)
                (created made.0 i nothing
                  (subst (IsFree st.sessions) drawn (fresh_id-IsFree tries random n st.sessions))
                  (found-IsLeast st.groups i least))
        ]
      ]

module _ (ops : TrackOps) (opener : Opener ops.Track) where
  -- The store behind a handler.
  abbrev WritesTo {ℓ} : {A : Type ℓ} → World ops opener → A × World ops opener → Type 0
  WritesTo w r = Writes ops w.store r.1.store

  write_session-Writes :
      {st : Store ops} (id : Bytes) (s s' : Session ops) (w : World ops opener)
      → Writes ops st w.store
      → get_session ops id w.store ≡ ok s
      → Writes ops st (write_session ops opener id s' w).store
  unfolding write_session
  write_session-Writes id s s' w before e =
      wrote id s s' before (get_session-found ops id w.store s e).0
        (get_session-found ops id w.store s e).1

  handle_play-Writes :
      (c : Context ops.Time) (q : Request) (w : World ops opener)
      → WritesTo w (handle_play ops opener c q w)
  unfolding handle_play
  handle_play-Writes c q w =
      elim (Result-cases (get_session ops (get_header (codes "session") q) w.store)) [
        | inr (e, refused) ↦ rw (handle_play, refused) nothing
        | inl (s, found) ↦ ranged s found (get_header (codes "range") q) refl
      ]
    where
      ranged :
          (s : Session ops)
          → get_session ops (get_header (codes "session") q) w.store ≡ ok s
          → (range : Bytes) → get_header (codes "range") q ≡ range
          → WritesTo w (handle_play ops opener c q w)
      ranged s found [] e =
          rw (handle_play, found, e) (write_session-Writes _ s (play ops s).1 w nothing found)
      ranged s found (b ∷ value) e =
          elim (Result-cases (parse_range_header ops.Time ops.zero_time c.read_float (b ∷ value))) [
            | inl (times, parsed) ↦
                rw (handle_play, found, e, parsed)
                  (write_session-Writes _ s (play_between ops times.0 times.1 s).1 w nothing found)
            | inr (x, bad) ↦ rw (handle_play, found, e, bad) nothing
          ]

  handle_pause-Writes :
      (date : Bytes) (q : Request) (w : World ops opener)
      → WritesTo w (handle_pause ops opener date q w)
  unfolding handle_pause
  handle_pause-Writes date q w =
      elim (Result-cases (get_session ops (get_header (codes "session") q) w.store)) [
        | inl (s, found) ↦
            rw (handle_pause, found) (write_session-Writes _ s (pause ops s) w nothing found)
        | inr (e, refused) ↦ rw (handle_pause, refused) nothing
      ]

  handle_teardown-Writes :
      (q : Request) (w : World ops opener) → WritesTo w (handle_teardown ops opener q w)
  unfolding handle_teardown
  handle_teardown-Writes q w =
      elim (Result-cases (get_session ops (get_header (codes "session") q) w.store)) [
        | inl (s, found) ↦
            rw (handle_teardown, found) (write_session-Writes _ s (teardown ops s) w nothing found)
        | inr (e, refused) ↦ rw (handle_teardown, refused) nothing
      ]

  find_or_create-IsOk :
      (tries : ℕ) (random : ℕ → ℕ) (sent : Bytes) (w : World ops opener)
      → IsOk
          (λ (r : (Bytes × Session ops) × World ops opener).
            Writes ops w.store r.1.store × (get_session ops r.0.0 r.1.store ≡ ok r.0.1))
          (find_or_create ops opener tries random sent w)
  unfolding find_or_create
  find_or_create-IsOk tries random [] w =
      elim (Result-cases (create_session ops tries random w.drawn w.store)) [
        | inr (x, bad) ↦ rw (find_or_create, bad) tt
        | inl (((id, drawn), st), made) ↦ elim (Result-cases (get_session ops id st)) [
          | inr (x, bad) ↦ rw (find_or_create, made, bad) tt
          | inl (s, found) ↦
              rw (find_or_create, made, found)
                (IsOk-eq _ (create_session-IsOk ops tries random w.drawn w.store) made, found)
        ]
      ]
  find_or_create-IsOk tries random (c ∷ id) w =
      elim (Result-cases (get_session ops (c ∷ id) w.store)) [
        | inr (x, bad) ↦ rw (find_or_create, bad) tt
        | inl (s, found) ↦ rw (find_or_create, found) (nothing, found)
      ]

  setup_track-Writes :
      {st : Store ops} (date basename control_id id : Bytes) (q : Request) (s : Session ops)
      (w : World ops opener)
      → Writes ops st w.store
      → get_session ops id w.store ≡ ok s
      → Writes ops st (setup_track ops opener date basename control_id q id s w).1.store
  unfolding setup_track
  setup_track-Writes date basename control_id id q s w before found =
      elim (Result-cases (tried).0) [
        | inl ((t, text), opened) ↦
            rw (setup_track, opened)
              (let (tracks, files) = grow ops opener s.tracks (tried).1 in
                write_session-Writes id s (record s { tracks = tracks ++ t ∷ [] })
                  (record w { files = files }) before found)
        | inr (x, bad) ↦ rw (setup_track, bad) before
      ]
    where
      tried : Result (ops.Track × Bytes) × opener.State
      tried =
          try_transports ops opener (opener.open_track q.client_addr basename control_id)
            (split (get_header (codes "transport") q) b',') none w.files

  handle_setup-Writes :
      (tries : ℕ) (random : ℕ → ℕ) (date : Bytes) (q : Request) (w : World ops opener)
      → WritesTo w (handle_setup ops opener tries random date q w)
  unfolding handle_setup
  handle_setup-Writes tries random date q w = parted (split (get_endpoint_from_url q.url) b'/') refl
    where
      parted :
          (parts : List Bytes)
          → split (get_endpoint_from_url q.url) b'/' ≡ parts
          → WritesTo w (handle_setup ops opener tries random date q w)
      parted [] e = rw (handle_setup, e) nothing
      parted (_ ∷ []) e = rw (handle_setup, e) nothing
      parted (_ ∷ _ ∷ _ ∷ _) e = rw (handle_setup, e) nothing
      parted (basename ∷ control_id ∷ []) e =
          elim (Result-cases
            (find_or_create ops opener tries random (get_header (codes "session") q) w)) [
              | inr (x, bad) ↦ rw (handle_setup, e, bad) nothing
              | inl (((id, s), w'), got) ↦
                  let given =
                    IsOk-eq _ (find_or_create-IsOk tries random (get_header (codes "session") q) w)
                      got in
                  rw (handle_setup, e, got)
                    (setup_track-Writes date basename control_id id q s w' given.0 given.1)
            ]

  handle-Writes :
      (tries : ℕ) (random : ℕ → ℕ) (c : Context ops.Time) (q : Request) (w : World ops opener)
      → WritesTo w (handle ops opener tries random c q w)
  unfolding handle
  handle-Writes tries random c q w = either (method "DESCRIBE") _ _ nothing (
      either (method "SETUP") _ _ (handle_setup-Writes tries random c.date q w) (
        either (method "OPTIONS") _ _ nothing (
          either (method "PLAY") _ _ (handle_play-Writes c q w) (
            either (method "PAUSE") _ _ (handle_pause-Writes c.date q w)
              (either (method "TEARDOWN") _ _ (handle_teardown-Writes q w) nothing)))))
    where
      method : String → Bool
      method name = bytes_eq q.method (codes name)

      either :
          (b : Bool) (r r' : Result Response × World ops opener)
          → WritesTo w r
          → WritesTo w r'
          → WritesTo w (if b then r else r')
      either true r r' p p' = p
      either false r r' p p' = p'

  pub dispatch-Writes :
      (iterate : Headers → Headers) (tries : ℕ) (random : ℕ → ℕ) (c : Context ops.Time)
      (q : Request) (w : World ops opener)
      → WritesTo w (dispatch ops opener iterate tries random c q w)
  unfolding dispatch
  dispatch-Writes iterate tries random c q w = handle-Writes tries random c q w
