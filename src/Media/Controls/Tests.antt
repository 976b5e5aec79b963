-- ===== src/Media/Controls/Tests.antt =====
-- The description of two streams, in which the line of the parameters is long, as in the comment at
-- the head of src/Server/Track.cpp.
use rtp_server.Common.{◌≡◌, refl, arith, [], ◌∷◌, Bytes, codes, bytes_eq, is_prefix, all-NoneOf}
use rtp_server.Media.Controls.{
  video, media_type_of, assign, stream_type, map_streams_to_control_ids,
}
use rtp_server.Media.Controls.Collected.{
  IsLine, at_long_line, at_zero, unlines, map_streams_to_control_ids-collect,
}
use rtp_server.Media.Controls.Unknown.{stream_type-unknown}

abbrev video_line : Bytes
video_line = codes "m=video 0 RTP/AVP 96"

abbrev control_line : Bytes
control_line = codes "a=control:streamid=0"

video_line-IsLine : IsLine video_line
unfolding is_prefix
video_line-IsLine = record {
  no_feed = all-NoneOf b'\n' video_line refl;
  no_zero = all-NoneOf 0 video_line refl;
  not_empty = omega arith;
  short = omega arith;
  names_medium = λ e. omega arith;
}

control_line-IsLine : IsLine control_line
unfolding is_prefix
control_line-IsLine = record {
  no_feed = all-NoneOf b'\n' control_line refl;
  no_zero = all-NoneOf 0 control_line refl;
  not_empty = omega arith;
  short = omega arith;
  names_medium = λ e. ground arith;
}

map_streams_to_control_ids_example :
    map_streams_to_control_ids (unlines (video_line ∷ control_line ∷ []) (0 ∷ [])) []
    ≡ (codes "streamid=0", video) ∷ []
unfolding is_prefix media_type_of assign bytes_eq
map_streams_to_control_ids_example =
    map_streams_to_control_ids-collect (video_line ∷ control_line ∷ []) (0 ∷ []) []
      (video_line-IsLine, (control_line-IsLine, tt)) (at_zero [])

-- The parameters of the video stream, and then the audio stream.
abbrev long_tail : Bytes
long_tail =
    codes
      "=fmtp:96 packetization-mode=1; sprop-parameter-sets=Z2QAKqzZQHgCJ+WEAAADAAQAAAMB4Dxgxlg=,aOvhcsiw\nm=audio 0 RTP/AVP 97\na=control:streamid=1\n"

stream_type-unknown_example :
    stream_type
      (codes "streamid=1")
      (map_streams_to_control_ids (unlines (video_line ∷ []) (b'a' ∷ long_tail)) [])
    ≡ video
unfolding is_prefix
stream_type-unknown_example =
    stream_type-unknown (codes "streamid=1") (video_line ∷ []) (b'a' ∷ long_tail)
      (video_line-IsLine, tt) (at_long_line b'a' long_tail (omega arith)) ((λ e. ground arith), tt)
