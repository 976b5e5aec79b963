-- ===== src/Start/Loader/Tests.antt =====
-- The list of src/Server/Media.cpp with its one medium, described by two lines.
use rtp_server.Common.{
  ◌≡◌, refl, blit, Option, some, List, [], ◌∷◌, ◌++◌, Bytes, codes, c_str, bytes_eq, all-NoneOf,
  replicate,
}
use rtp_server.Exception.{ok}
use rtp_server.Rtsp.Request.{Request, initial}
use rtp_server.Rtsp.Response.{Response}
use rtp_server.Media.Controls.{map_streams_to_control_ids, getline, read_line, read_lines}
use rtp_server.Media.Sdp.{remove_from, get_sdp}
use rtp_server.Media.Sdp.Removed.{without_cr}
use rtp_server.Util.Split.{find_nth_of}
use rtp_server.Rtp.Track.Open.{Media, load}
use rtp_server.Rtp.Track.Open.Tests.{studio}
use rtp_server.Dispatch.{get_endpoint_from_url, handle_describe}
use rtp_server.Start.Loader.{descriptions, assign_media, load_media, load_all}
use rtp_server.Start.Loader.Found.{handle_describe-load_all}

abbrev unread : Media
unread = record {
  basename = codes "sample";
  file_name = codes "sample.mp4";
  sdp = [];
  stream_type_by_control_id = [];
}

abbrev text : Bytes
text = codes "v=0\r\ns=x\r\n"

abbrev described : studio.av.File → Option Bytes
described file = some (text ++ 0 ∷ replicate 5 0)

abbrev read : List Media
read = record unread { sdp = codes "v=0\ns=x\n" ++ 0 ∷ b'\n' ∷ replicate 6 0 } ∷ []

abbrev describing : Request
describing = record initial { url = codes "rtsp://h/sample"; method = codes "DESCRIBE" }

all_read : load_all studio described (unread ∷ []) [] ≡ ok read
unfolding load_all load_media assign_media get_sdp load remove_from map_streams_to_control_ids blit
    read_lines getline read_line bytes_eq
all_read = refl

handle_describe-load_all_example :
    (r : Response) × (handle_describe (descriptions read) (codes "today") describing ≡ ok r)
    × (r.status ≡ codes "200 OK")
    × (c_str r.body ≡ without_cr text)
unfolding get_endpoint_from_url find_nth_of load bytes_eq
handle_describe-load_all_example =
    handle_describe-load_all studio described (unread ∷ []) read unread
      (record { file = []; stream_index = 0; sample_rate = 100; timestamp_frequency = 90000 }) text
      (replicate 5 0) (codes "today") b's' (codes "ample") describing all_read refl refl refl
      (all-NoneOf 0 text refl) refl
