-- ===== src/Session/Tracks.antt =====
-- The tracks of src/Server/Track.cpp, as a session uses them.
use rtp_server.Common.{ℕ}
use rtp_server.Rtp.Track.{Clock, Demuxer, Track, send_frames, set_play_time, set_play_range_end}
use rtp_server.Session.{TrackOps}

-- `rounds` and `packets` bound the loops of `send_frames`.
abbrev pub track_ops : Clock → Demuxer → ℕ → ℕ → TrackOps
track_ops clock av rounds packets = record {
  Time = clock.Time;
  zero_time = clock.zero_time;
  is_zero = clock.is_zero;
  Track = Track clock av;
  send_frames = send_frames clock av rounds packets;
  set_play_time = set_play_time clock av;
  set_play_range_end = set_play_range_end clock av;
}
