-- ===== src/Rtp/Track/Tests.antt =====
-- The theorems on `send_frames` with times in whole seconds and a file that is a list.
use rtp_server.Common.{
  ℕ, ◌+◌, ◌*◌, ◌/◌, ◌≡◌, refl, true, Option, none, some, List, [], ◌∷◌, arith, ltb, ◌==◌, replicate,
}
use rtp_server.Exception.{out_of_fuel, done, threw}
use rtp_server.Rtp.Fragments.{Frame}
use rtp_server.Rtp.Fragments.Sent.{after_packets}
use rtp_server.Rtp.Track.{
  Clock, AvPacket, Demuxer, Stream, Track, read_frame, send_until, cutoff_of, send_frames,
}
use rtp_server.Rtp.Track.Frames.{after_frames, send_frames_lem, send_until_at_end}

abbrev pub seconds : Clock
seconds = record {
  Time = ℕ;
  zero_time = 0;
  is_zero = λ t. t == 0;
  lt = ltb;
  add_buffer = λ t. t + 10;
  divide = λ timestamp rate. timestamp / rate;
}

abbrev pop : List AvPacket → Option AvPacket × List AvPacket
pop [] = (none, [])
pop (p ∷ ps) = (some p, ps)

abbrev pub list_file : Demuxer
list_file = record { File = List AvPacket; av_read_frame = pop; rescale = λ i frequency t. t }

-- A frame of three bytes at the given second.
abbrev frame_at : ℕ → Frame
frame_at n = record { timestamp = 100 * n; bytes = 1 ∷ 2 ∷ 3 ∷ [] }

abbrev two_frames : Track seconds list_file
two_frames = record {
  rtp_socket = record { socket_fd = 3; port = 5004 };
  rtcp_socket = record { socket_fd = 4; port = 5005 };
  sender = record { sequence_number = 7; sent = [] };
  setting = record {
    fresh = λ n. replicate n 0;
    accepts = λ sent d. true;
    ssrc = 7;
    is_video = true;
  };
  stream = record {
    file =
        record { stream_index = 1; frame = frame_at 3 }
        ∷ record { stream_index = 0; frame = frame_at 4 }
        ∷ record { stream_index = 1; frame = frame_at 12 }
        ∷ [];
    stream_index = 1;
    sample_rate = 100;
    timestamp_frequency = 100;
  };
  play_time = 0;
  play_range_end = 0;
}

abbrev no_more : Stream seconds list_file
no_more = record two_frames.stream { file = [] }

abbrev first_read : Stream seconds list_file
first_read = record two_frames.stream {
  file =
      record { stream_index = 0; frame = frame_at 4 }
      ∷ record { stream_index = 1; frame = frame_at 12 }
      ∷ [];
}

send_frames_example :
    send_frames seconds list_file 4 2 two_frames
    ≡ done (
      true,
      record two_frames {
        stream = no_more;
        play_time = 12;
        sender = after_frames two_frames.sender (frame_at 3 ∷ frame_at 12 ∷ []);
      },
    )
unfolding cutoff_of read_frame
send_frames_example =
    send_frames_lem seconds list_file 2 4 two_frames (frame_at 3 ∷ []) (frame_at 12) no_more
      (λ sent d. refl) (omega arith, (omega arith, tt))
      (first_read, refl, refl, (no_more, refl, refl, refl)) refl (refl, tt) refl (omega arith)

at_end_example :
    (q : Track seconds list_file) × (send_until seconds list_file 50 1 10
        (record two_frames { stream = no_more })
      ≡ threw out_of_fuel q)
    × (q.sender ≡ after_packets 50 [] two_frames.sender)
at_end_example =
    send_until_at_end seconds list_file 1 (λ file. file ≡ []) (λ file e. rw e (refl, refl)) 50 10
      (record two_frames { stream = no_more }) (omega arith) refl (λ sent d. refl) (omega arith)
      refl refl
