-- ===== src/Dispatch/Tests.antt =====
-- The theorems on the handlers, with tracks that are numbers and a server with one medium.
use rtp_server.Common.{
  ℕ, ◌+◌, ◌≡◌, refl, false, none, some, [], ◌∷◌, ◌==◌, Bytes, codes, bytes_eq, find, if◌then◌else◌,
  true,
}
use rtp_server.Exception.{bad_npt, bad_transport_spec, ok, err, done}
use rtp_server.Util.Split.{split, find_nth_of}
use rtp_server.Util.Npt.{parse_range_header, parse_parts}
use rtp_server.Rtsp.Headers.{lookup}
use rtp_server.Rtsp.Request.{Request, initial, get_header}
use rtp_server.Rtsp.Response.{Response, empty_response, set_status, set_header, marshal}
use rtp_server.Session.{TrackOps, new_session}
use rtp_server.Session.Store.{
  generate_id, Store, get_session, fresh_id, insert_session, create_session,
}
use rtp_server.Dispatch.{
  get_endpoint_from_url, write_session, find_or_create, Context, Opener, World, handle_setup,
  handle, handle_options, dispatch, grow,
}
use rtp_server.Dispatch.Setup.{taken, passed, handle_setup_lem}
use rtp_server.Dispatch.Answers.{handle_setup-AreRefused, refused, none_left}

abbrev pub counters : TrackOps
counters = record {
  Time = ℕ;
  zero_time = 0;
  is_zero = λ t. t == 0;
  Track = ℕ;
  send_frames = λ t. done (false, t);
  set_play_time = λ npt t. (npt, t);
  set_play_range_end = λ npt t. (npt, t);
}

-- No transport is accepted.
abbrev pub closed : Opener ℕ
closed = record {
  State = ℕ;
  open_track = λ addr basename control_id v s. (err bad_transport_spec, s + 1);
  is_full = λ n. true;
  move_tracks = λ ts s. (ts, s);
}

abbrev pub world : World counters closed
world = record {
  store = record {
    sessions = (codes "A", new_session counters (codes "A")) ∷ [];
    groups = record { sessions = []; newly_added = codes "A" ∷ [] } ∷ [];
  };
  drawn = 0;
  files = 0;
}

abbrev pub context : Context ℕ
context = record {
  by_basename = (codes "sample", codes "v=0") ∷ [];
  date = codes "today";
  read_float = λ s. none;
  format_range = λ r. codes "0-";
}

abbrev pub asking : Bytes → Request
asking url = record initial { url = url; headers = (codes "session", codes "A") ∷ [] }

abbrev pub without_session : Bytes → Request
without_session url = record initial { url = url; headers = (codes "transport", codes "RAW") ∷ [] }

-- The store with the session of the first number drawn.
abbrev grown_store : Store counters
grown_store = record {
  sessions =
      (generate_id 0, new_session counters (generate_id 0))
      ∷ (codes "A", new_session counters (codes "A"))
      ∷ [];
  groups = record { sessions = []; newly_added = codes "A" ∷ generate_id 0 ∷ [] } ∷ [];
}

-- Two transports are offered, and both refused.
abbrev offering : Request
offering = record initial {
  url = codes "rtsp://h/sample/a";
  headers = (codes "transport", codes "RAW,TCP") ∷ [];
}

setup_refused_example :
    handle_setup counters closed 2 (λ n. n) (codes "today") offering world
    ≡ (err bad_transport_spec, record { store = grown_store; drawn = 1; files = 2 })
unfolding get_endpoint_from_url find_nth_of split get_header lookup create_session fresh_id
    insert_session get_session find generate_id
setup_refused_example =
    handle_setup-AreRefused counters closed 2 (λ n. n) (codes "today") offering world
      (codes "sample") (codes "a") (generate_id 0) (codes "RAW") (codes "TCP" ∷ []) 1 grown_store
      (new_session counters (generate_id 0)) bad_transport_spec 1 2 refl refl refl refl refl refl
      refl (refused bad_transport_spec refl refl none_left)

-- Any transport but one is accepted.
abbrev picky : Opener ℕ
picky = record {
  State = ℕ;
  open_track = λ addr basename control_id v s.
      if bytes_eq v (codes "RAW")
      then (err bad_transport_spec, s + 1)
      else (ok (7, codes "RTP/AVP;unicast"), s + 1);
  is_full = λ n. true;
  move_tracks = λ ts s. (ts, s);
}

abbrev picky_world : World counters picky
picky_world = record { store = world.store; drawn = 0; files = 0 }

abbrev setting_up : Request
setting_up = record initial {
  url = codes "rtsp://h/sample/a";
  headers =
      (codes "session", codes "A")
      ∷ (codes "cseq", codes "3")
      ∷ (codes "transport", codes "RAW,RTP")
      ∷ [];
}

handle_setup_lem_example :
    (r : Response) × (handle_setup counters picky 2 (λ n. n) (codes "today") setting_up picky_world
      ≡ (
        ok r,
        write_session counters picky
            (codes "A")
            (record (new_session counters (codes "A")) { tracks = 7 ∷ [] })
            (record picky_world { files = 2 }),
      ))
    × (r.status ≡ codes "200 OK")
    × (lookup (codes "Transport") r.headers ≡ some (codes "RTP/AVP;unicast"))
    × (lookup (codes "Session") r.headers ≡ some (codes "A"))
    × (lookup (codes "CSeq") r.headers ≡ some (codes "3"))
unfolding get_endpoint_from_url find_nth_of split get_header lookup get_session find bytes_eq
    find_or_create grow
handle_setup_lem_example =
    handle_setup_lem counters picky 2 (λ n. n) (codes "today") setting_up picky_world picky_world
      (codes "sample") (codes "a") (codes "A") (new_session counters (codes "A")) 7
      (codes "RTP/AVP;unicast") 2 refl refl (passed refl refl (taken refl))

-- The answer to OPTIONS as text.
options_text :
    ((dispatch counters closed
        (λ hs. hs)
        2
        (λ n. n)
        context
        (record (asking []) { method = codes "OPTIONS"; headers = (codes "cseq", codes "2") ∷ [] })
        world).0
      ≡ ok (record empty_response {
        status = codes "200 OK";
        headers =
            (codes "CSeq", codes "2")
            ∷ (codes "Public", codes "DESCRIBE, SETUP, TEARDOWN, PLAY, PAUSE")
            ∷ [];
        buffer =
            codes "RTSP/1.0 200 OK\nCSeq: 2\nPublic: DESCRIBE, SETUP, TEARDOWN, PLAY, PAUSE\n\n";
      }))
unfolding dispatch handle handle_options bytes_eq set_status set_header marshal lookup get_header
options_text = refl

-- A range with no begin, which the comment in src/util/NPT.cpp allows, is refused.
range_without_begin :
    parse_range_header ℕ 0 (λ s. elim s [ [] ↦ none | _ ∷ _ ↦ some 7 ]) (codes "npt=-20")
    ≡ err bad_npt
unfolding parse_range_header parse_parts split find
range_without_begin = refl
