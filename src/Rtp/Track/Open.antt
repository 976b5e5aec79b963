-- ===== src/Rtp/Track/Open.antt =====
-- The constructor of `Track` of src/Server/Track.cpp, with `Stream::load` of src/Server/Stream.cpp,
-- as SETUP calls it. What libavformat says of a file is a parameter, as are the random numbers, the
-- memory in which a track is made and the memory of packets.
pub mod Answered
pub mod Moved
pub mod Tests
use rtp_server.Common.{
  ℕ, ◌+◌, Bool, true, false, Option, none, some, List, [], ◌∷◌, ◌++◌, if◌then◌else◌, Bytes,
  bytes_eq, map,
}
use rtp_server.Exception.{bad_presentation, stream_failed, Result, ok, err}
use rtp_server.Media.Controls.{MediaType, video, audio, TypeMap}
use rtp_server.Udp.{Kernel, Socket}
use rtp_server.Rtp.Fragments.{Sender, Setting}
use rtp_server.Rtp.Transport.{Transport, get_string}
use rtp_server.Rtp.Transport.Bind.{Sockets}
use rtp_server.Rtp.Transport.Construct.{
  Shared, shared_of, sockets_over, destroy_sockets, construct, relocate,
}
use rtp_server.Rtp.Track.{Clock, Demuxer, Stream, Track}
use rtp_server.Dispatch.{Opener}

-- `struct Media`
pub record Media : Type 0 where
  pub basename : Bytes
  pub file_name : Bytes
  pub sdp : Bytes
  pub stream_type_by_control_id : TypeMap

-- `Media::by_basename.find`
unfoldable pub find_media : Bytes → List Media → Option Media
find_media name [] = none
find_media name (m ∷ ms) = if bytes_eq m.basename name then some m else find_media name ms

abbrev pub is_video : MediaType → Bool
is_video video = true
is_video audio = false

-- The frequency of the timestamps of a stream with a sample rate.
abbrev pub frequency_of : MediaType → ℕ → ℕ
frequency_of video rate = 90000
frequency_of audio rate = rate

-- `avformat_open_input`, `av_find_best_stream` and the `sample_rate` of a stream.
pub record Library (av : Demuxer) : Type 0 where
  pub open_input : Bytes → Option av.File
  pub find_best_stream : MediaType → av.File → Option ℕ
  pub sample_rate_of : ℕ → av.File → ℕ

-- What a server is run on, for its tracks. A try to make a track has a number, by which its memory
-- and its random number are found.
pub record Studio : Type 1 where
  pub clock : Clock
  pub av : Demuxer
  pub library : Library av
  pub kernel : Kernel
  pub media : List Media
  pub memory : ℕ → Socket × Socket
  pub rng : ℕ → ℕ
  pub fresh : ℕ → ℕ → Bytes
  pub accepts : Sockets kernel → List Bytes → Bytes → Bool
  -- What `stream_type_by_control_id[control_id]` reads behind the assignments that were made: its
  -- keys are views of strings that are gone.
  pub read_type : Bytes → TypeMap → MediaType
  -- Whether a `std::vector` with a number of tracks grows for one more.
  pub is_full : ℕ → Bool

module _ (g : Studio) where
  -- `Stream::load`
  unfoldable pub load : Bytes → MediaType → Result (Stream g.clock g.av)
  load file_name media_type = elim (g.library.open_input file_name) [
    | none ↦ err stream_failed
    | some file ↦ elim (g.library.find_best_stream media_type file) [
      | none ↦ err stream_failed
      | some i ↦ ok (record {
        file = file;
        stream_index = i;
        sample_rate = g.library.sample_rate_of i file;
        timestamp_frequency = frequency_of media_type (g.library.sample_rate_of i file);
      })
    ]
  ]

  -- The pool of ports with the kernel, how many tracks were tried, and the sockets of those made.
  pub record Opening : Type 0 where
    pub shared : Shared g.kernel
    pub tried : ℕ
    pub made : List (Sockets g.kernel)

  -- The body of the constructor.
  unfoldable pub open_stream : Bytes → Bytes → Result (MediaType × Stream g.clock g.av)
  open_stream basename control_id = elim (find_media basename g.media) [
    | none ↦ err bad_presentation
    | some m ↦
        let t = g.read_type control_id m.stream_type_by_control_id in
        elim (load m.file_name t) [ err e ↦ err e | ok s ↦ ok (t, s) ]
  ]

  -- The track, for the try `n`.
  abbrev pub track_of : ℕ → Sockets g.kernel → MediaType → Stream g.clock g.av → Track g.clock g.av
  track_of n sockets t stream = record {
    rtp_socket = sockets.rtp_socket;
    rtcp_socket = sockets.rtcp_socket;
    sender = record { sequence_number = 0; sent = [] };
    setting = record {
      fresh = g.fresh n;
      accepts = g.accepts sockets;
      ssrc = g.rng n;
      is_video = is_video t;
    };
    stream = stream;
    play_time = g.clock.zero_time;
    play_range_end = g.clock.zero_time;
  }

  -- The transport is made first. Where the body throws, it is destroyed.
  unfoldable pub new_track :
      Bytes → Bytes → Bytes → Bytes → Opening → Result (Track g.clock g.av × Bytes) × Opening
  new_track client_addr basename control_id value o =
      let (r, shared) =
        construct g.kernel (g.memory o.tried).0 (g.memory o.tried).1 client_addr value o.shared in
      let o' = record o { shared = shared; tried = o.tried + 1 } in
      elim r [
        | err e ↦ (err e, o')
        | ok (t, sockets) ↦ elim (open_stream basename control_id) [
          | err e ↦ (
            err e,
            record o' {
              shared = shared_of g.kernel (
                  destroy_sockets g.kernel
                    (sockets_over g.kernel sockets.rtp_socket sockets.rtcp_socket shared));
            },
          )
          | ok (media_type, stream) ↦ (
            ok (track_of o.tried sockets media_type stream, get_string t),
            record o' { made = o.made ++ sockets ∷ [] },
          )
        ]
      ]

  -- The move constructor of `Stream`, which does not take the frequency.
  unfoldable pub move_stream : Stream g.clock g.av → Stream g.clock g.av
  move_stream other = record other { timestamp_frequency = 0 }

  abbrev pub sockets_of : Track g.clock g.av → Socket × Socket
  sockets_of t = (t.rtp_socket, t.rtcp_socket)

  -- What `emplace_back` does to the tracks that are there when the vector grows: each is moved to a
  -- new place, and then the old ones are destroyed. A moved-from stream holds nothing to free.
  unfoldable pub move_tracks :
      List (Track g.clock g.av) → Opening → List (Track g.clock g.av) × Opening
  move_tracks ts o = (
    map (λ (t : Track g.clock g.av). record t { stream = move_stream t.stream }) ts,
    record o { shared = relocate g.kernel (map sockets_of ts) o.shared },
  )

  -- `emplace_track`, with the text of the transport.
  abbrev pub track_opener : Opener (Track g.clock g.av)
  track_opener = record {
    State = Opening;
    open_track = new_track;
    is_full = g.is_full;
    move_tracks = move_tracks;
  }
