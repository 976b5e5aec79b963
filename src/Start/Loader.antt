-- ===== src/Start/Loader.antt =====
-- `SDP_Loader` of src/Server/Media.cpp, whose constructor runs before `main`: it reads the
-- description of every medium. The list of media and `av_sdp_create` are parameters.
pub mod Found
mod Tests
use rtp_server.Common.{Option, none, some, List, [], ◌∷◌, if◌then◌else◌, Bytes, bytes_eq, map}
use rtp_server.Exception.{Result, ok, err, ◌>>=◌}
use rtp_server.Rtsp.Headers.{Headers}
use rtp_server.Media.Sdp.{get_sdp}
use rtp_server.Media.Controls.{video, map_streams_to_control_ids}
use rtp_server.Rtp.Track.{Demuxer, Stream}
use rtp_server.Rtp.Track.Open.{Media, Studio, load}

-- `Media::by_basename[m.basename] = &m`, for the map as `find_media` reads it.
unfoldable pub assign_media : Media → List Media → List Media
assign_media m [] = m ∷ []
assign_media m (n ∷ found) =
    if bytes_eq n.basename m.basename then m ∷ found else n ∷ assign_media m found

-- The map as DESCRIBE reads it.
abbrev pub descriptions : List Media → Headers
descriptions found = map (λ (m : Media). (m.basename, m.sdp)) found

module _ (g : Studio) (av_sdp_create : g.av.File → Option Bytes) where
  -- The body of the loop, up to the map.
  unfoldable pub load_media : Media → Result Media
  load_media m = do
    stream ← load g m.file_name video
    sdp ← get_sdp (av_sdp_create stream.file)
    ok (record m {
      sdp = sdp;
      stream_type_by_control_id = map_streams_to_control_ids sdp m.stream_type_by_control_id;
    })

  -- The constructor. Where it throws, the program ends.
  unfoldable pub load_all : List Media → List Media → Result (List Media)
  load_all [] found = ok found
  load_all (m ∷ all_media) found = elim (load_media m) [
    | err e ↦ err e
    | ok m' ↦ load_all all_media (assign_media m' found)
  ]
