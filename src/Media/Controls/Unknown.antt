-- ===== src/Media/Controls/Unknown.antt =====
-- Control ids that the description names where it is not read.
use rtp_server.Common.{
  ◌≡◌, ◌≢◌, refl, arith, true, List, [], ◌∷◌, drop, Bytes, codes, bytes_eq_iff, is_prefix, All,
  Bool-cases, Option-cases, inl, inr, ◌∙◌,
}
use rtp_server.Media.Controls.{
  MediaType, video, TypeMap, media_type_of, assign, stream_type, map_streams_to_control_ids,
}
use rtp_server.Media.Controls.Collected.{
  IsLine, IsEnd, unlines, collect, next_map, next_medium, map_streams_to_control_ids-collect,
}

-- The line is not that of the control id `id`.
abbrev pub IsOther : Bytes → Bytes → Type 0
IsOther id line = is_prefix (codes "a=control:") line ≡ true → drop 10 line ≢ id

stream_type-assign :
    (id k : Bytes) (t : MediaType) (m : TypeMap)
    → k ≢ id
    → stream_type id (assign k t m) ≡ stream_type id m
unfolding stream_type assign
stream_type-assign id k t m h = ground (arith, bytes_eq_iff k id)

stream_type-next_map :
    (id line medium : Bytes) (m : TypeMap)
    → IsOther id line
    → stream_type id (next_map line medium m) ≡ stream_type id m
stream_type-next_map id line medium m h = elim (Bool-cases (is_prefix (codes "m=") line)) [
  | inl y ↦ rw y refl
  | inr n ↦ elim (Bool-cases (is_prefix (codes "a=control:") line)) [
    | inr n' ↦ rw (n, n') refl
    | inl y ↦ elim (Option-cases (media_type_of medium)) [
      | inl o ↦ rw (n, y, o) refl
      | inr (t, o) ↦ rw (n, y, o) (stream_type-assign id (drop 10 line) t m (h y))
    ]
  ]
]

stream_type-collect :
    (id medium : Bytes) (m : TypeMap) (ls : List Bytes)
    → All (IsOther id) ls
    → stream_type id (collect medium m ls) ≡ stream_type id m
stream_type-collect id medium m [] h = refl
stream_type-collect id medium m (l ∷ ls) h =
    stream_type-collect id (next_medium l medium) (next_map l medium m) ls h.1
    ∙ stream_type-next_map id l medium m h.0

-- The description begins with lines that are read, none of them that of the control id `id`, and
-- goes on with a part that is not read: an empty line, a 0 byte, or a line of more than 63 bytes.
-- Whatever that part says of `id`, a lookup of it that finds the keys as they were assigned gives
-- the video stream.
pub stream_type-unknown :
    (id : Bytes) (ls : List Bytes) (rest : Bytes)
    → All IsLine ls
    → IsEnd rest
    → All (IsOther id) ls
    → stream_type id (map_streams_to_control_ids (unlines ls rest) []) ≡ video
unfolding stream_type
stream_type-unknown id ls rest h e o =
    rw (map_streams_to_control_ids-collect ls rest [] h e) (stream_type-collect id [] [] ls o)
