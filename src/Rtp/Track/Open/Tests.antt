-- ===== src/Rtp/Track/Open/Tests.antt =====
-- A track of one medium, on a kernel that takes every call.
use rtp_server.Common.{ℕ, ◌+◌, refl, true, some, [], ◌∷◌, inr, arith, codes, replicate, ◌≡◌}
use rtp_server.Exception.{IsOk}
use rtp_server.Media.Controls.{video, stream_type}
use rtp_server.Udp.{Kernel, destroy, reset_port}
use rtp_server.Rtp.Transport.Tests.{asked, parse_asked}
use rtp_server.Rtp.Track.Tests.{seconds, list_file}
use rtp_server.Session.Tracks.{track_ops}
use rtp_server.Dispatch.{grow}
use rtp_server.Rtp.Track.{Track}
use rtp_server.Rtp.Transport.Construct.{relocate, destroy_sockets}
use rtp_server.Rtp.Track.Open.{Studio, Opening, Media, new_track, move_tracks, track_opener}
use rtp_server.Rtp.Track.Open.Moved.{AreMoved, grow-AreMoved}
use rtp_server.Rtp.Track.Open.Answered.{IsAnswer, new_track-IsAnswer}

abbrev calls : Kernel
calls = record {
  State = ℕ;
  open_socket = λ s. (some (s + 1), s + 1);
  bind_address = λ fd port s. (true, s);
  connect_address = λ fd addr s. (true, s);
  close_socket = λ fd s. s;
}

abbrev pub sample : Media
sample = record {
  basename = codes "sample";
  file_name = codes "sample.mp4";
  sdp = codes "v=0";
  stream_type_by_control_id = (codes "streamid=0", video) ∷ [];
}

abbrev pub studio : Studio
studio = record {
  clock = seconds;
  av = list_file;
  library = record {
    open_input = λ name. some [];
    find_best_stream = λ t f. some 0;
    sample_rate_of = λ i f. 100;
  };
  kernel = calls;
  media = sample ∷ [];
  memory = λ n. (record { socket_fd = 0; port = 0 }, record { socket_fd = 0; port = 0 });
  rng = λ n. n;
  fresh = λ n m. replicate m 0;
  accepts = λ s sent d. true;
  is_full = λ n. true;
  read_type = stream_type;
}

abbrev two_free : Opening studio
two_free = record { shared = record { ports = 5004 ∷ 5006 ∷ []; kernel = 3 }; tried = 0; made = [] }

new_track-IsAnswer_example :
    IsOk
      (λ made. IsAnswer studio asked 5004 made.1)
      (new_track studio
        (codes "h")
        (codes "sample")
        (codes "streamid=0")
        (codes "RTP/AVP;unicast;client_port=4588-4589")
        two_free).0
new_track-IsAnswer_example =
    new_track-IsAnswer studio (codes "h") (codes "sample") (codes "streamid=0")
      (codes "RTP/AVP;unicast;client_port=4588-4589") two_free asked 5004 (5006 ∷ []) refl refl
      parse_asked (refl, omega arith, inr refl)

-- A track with the ports 5004 and 5005.
abbrev playing : Track seconds list_file
playing = record {
  rtp_socket = record { socket_fd = 3; port = 5004 };
  rtcp_socket = record { socket_fd = 4; port = 5005 };
  sender = record { sequence_number = 0; sent = [] };
  setting = record {
    fresh = λ m. replicate m 0;
    accepts = λ sent d. true;
    ssrc = 7;
    is_video = true;
  };
  stream = record { file = []; stream_index = 0; sample_rate = 100; timestamp_frequency = 90000 };
  play_time = 0;
  play_range_end = 0;
}

grow-AreMoved_example :
    let (ts, o) =
      grow (track_ops seconds list_file 9 9) (track_opener studio) (playing ∷ []) two_free in
    AreMoved studio (playing ∷ []) ts two_free o
grow-AreMoved_example = grow-AreMoved studio 9 9 (playing ∷ []) two_free refl

-- Port 5004 is in the pool again, behind the two that were left.
port_given_back :
    (grow
      (track_ops seconds list_file 9 9)
      (track_opener studio)
      (playing ∷ [])
      two_free).1.shared.ports
    ≡ 5004 ∷ 5006 ∷ 5004 ∷ []
unfolding grow move_tracks relocate destroy_sockets destroy reset_port
port_given_back = refl
