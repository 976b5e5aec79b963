-- ===== src/Server/Tests.antt =====
-- One event on a server without media and sessions.
use rtp_server.Common.{
  ℕ, ◌≡◌, ◌≢◌, refl, true, false, not, ◌&&◌, none, [], ◌∷◌, arith, ◌==◌, codes, all-All, all-NoneOf,
  bytes_eq,
}
use rtp_server.Exception.{bad_transport_spec, bad_method, err, done}
use rtp_server.Rtsp.Headers.{lookup}
use rtp_server.Rtsp.Request.{Request, initial, get_header}
use rtp_server.Rtsp.Request.Loop.{Eol}
use rtp_server.Rtsp.Request.Line.{request_line}
use rtp_server.Rtsp.Request.RoundTrip.{IsWellFormed, render}
use rtp_server.Rtsp.Response.{set_status, set_header, marshal, get_data}
use rtp_server.Session.{TrackOps}
use rtp_server.Dispatch.{Context, Opener, World, dispatch, handle, handle_options}
use rtp_server.Server.{new_connection, serve_bytes}
use rtp_server.Server.EndToEnd.{received, serve_bytes-render}

abbrev pub no_tracks : TrackOps
no_tracks = record {
  Time = ℕ;
  zero_time = 0;
  is_zero = λ t. t == 0;
  Track = ℕ;
  send_frames = λ t. done (false, t);
  set_play_time = λ npt t. (npt, t);
  set_play_range_end = λ npt t. (npt, t);
}

abbrev pub closed : Opener ℕ
closed = record {
  State = ℕ;
  open_track = λ addr basename control_id v s. (err bad_transport_spec, s);
  is_full = λ n. true;
  move_tracks = λ ts s. (ts, s);
}

abbrev pub world : World no_tracks closed
world = record { store = record { sessions = []; groups = [] }; drawn = 0; files = 0 }

abbrev pub context : Context ℕ
context = record {
  by_basename = [];
  date = codes "today";
  read_float = λ s. none;
  format_range = λ r. [];
}

abbrev pub options : Request
options = record initial { method = codes "OPTIONS"; url = codes "*"; version = codes "RTSP/1.0" }

options-IsWellFormed : IsWellFormed options
unfolding lookup
options-IsWellFormed = record {
  lines_whole = (
    all-All (λ c. (c ≢ b'\r') × (c ≢ b'\n')) (λ x. not (x == b'\r') && not (x == b'\n'))
        (request_line options) (λ x h. ground arith) refl,
    tt,
  );
  method_word = all-NoneOf b' ' options.method refl;
  url_word = all-NoneOf b' ' options.url refl;
  names_distinct = tt;
  body_fits = refl;
}

serve_options_example :
    serve_bytes no_tracks closed
      (λ hs. hs)
      1
      (λ n. n)
      context
      (render Eol.just_lf options [])
      (new_connection (codes "h"))
      world
    ≡ record {
      connection = new_connection (codes "h");
      armed = true;
      sent =
          codes "RTSP/1.0 200 OK\nCSeq: \nPublic: DESCRIBE, SETUP, TEARDOWN, PLAY, PAUSE\n\n" ∷ [];
      world = world;
    }
unfolding dispatch handle handle_options bytes_eq set_status set_header marshal get_data lookup
    get_header
serve_options_example =
    serve_bytes-render Eol.just_lf options (codes "h") options-IsWellFormed tt (omega arith)
      no_tracks closed (λ hs. hs) 1 (λ n. n) context world

abbrev pub unknown_method : Request
unknown_method = record options { method = codes "RECORD" }

pub unknown_method-IsWellFormed : IsWellFormed unknown_method
unfolding lookup
unknown_method-IsWellFormed = record {
  lines_whole = (
    all-All (λ c. (c ≢ b'\r') × (c ≢ b'\n')) (λ x. not (x == b'\r') && not (x == b'\n'))
        (request_line unknown_method) (λ x h. ground arith) refl,
    tt,
  );
  method_word = all-NoneOf b' ' unknown_method.method refl;
  url_word = all-NoneOf b' ' unknown_method.url refl;
  names_distinct = tt;
  body_fits = refl;
}

-- Nothing is sent on an unknown method, and the descriptor is not armed.
pub serve_unknown :
    (dispatch no_tracks closed
      (λ hs. hs)
      1
      (λ n. n)
      context
      (received unknown_method (codes "h"))
      world)
    ≡ (err bad_method, world)
unfolding dispatch handle bytes_eq
serve_unknown = refl
