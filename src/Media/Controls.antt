-- ===== src/Media/Controls.antt =====
-- `map_streams_to_control_ids` of src/Server/Media.cpp, which reads the kind of each stream from
-- the description, and the lookup of a control id in src/Server/Track.cpp.
pub mod Collected
pub mod Unknown
mod Tests
use rtp_server.Common.{
  ℕ, zero, suc, ◌+◌, Bool, true, false, Option, none, some, List, [], ◌∷◌, ◌++◌, ◌==◌, leb,
  if◌then◌else◌, length, take, drop, replicate, blit, Bytes, codes, bytes_eq, c_str,
}

-- `Stream::MediaType`, as far as a stream is opened by it. `AVMEDIA_TYPE_VIDEO` is 0.
pub data MediaType : Type 0 where
  video audio : MediaType

-- The assignments that are made to a `stream_type_by_control_id`, the last one first: the text of the
-- key when `operator[]` is called, and the value. A key is a view of a string that is gone behind
-- the round of the loop, so what the map finds later is not determined by them (`read_type` of
-- rtp_server.Rtp.Track.Open).
abbrev pub TypeMap : Type 0
TypeMap = List (Bytes × MediaType)

-- `media_types`
unfoldable pub media_type_of : Bytes → Option MediaType
media_type_of s =
    if bytes_eq s (codes "video")
    then some video
    else if bytes_eq s (codes "audio")
    then some audio
    else none

-- `stream_type_by_control_id[control_id] = t`
unfoldable pub assign : Bytes → MediaType → TypeMap → TypeMap
assign id t m = (id, t) ∷ m

-- `stream_type_by_control_id[control_id]`, read, where the keys still show the texts of the
-- assignments: 0 where no key is equal.
unfoldable pub stream_type : Bytes → TypeMap → MediaType
stream_type id [] = video
stream_type id ((k, u) ∷ m) = if bytes_eq k id then u else stream_type id m

-- The bytes up to a line feed, and what follows it.
abbrev pub break_line : Bytes → Bytes × Bytes
break_line [] = ([], [])
break_line (c ∷ s) =
    let (line, rest) = break_line s in if c == b'\n' then ([], s) else (c ∷ line, rest)

-- `getline` into 64 bytes: it fails at the end of the stream, and where 63 bytes are stored and
-- neither the end nor a line feed follows.
unfoldable pub getline : Bytes → Option (Bytes × Bytes)
getline [] = none
getline (c ∷ s) =
    let (line, rest) = break_line (c ∷ s) in
    if leb (length line) 63 then some (line, rest) else none

-- What the loop keeps.
pub record Reader : Type 0 where
  pub buffer : Bytes
  pub media_type : Bytes
  pub stream_types : TypeMap

-- `!buffer.compare(0, n, prefix)`, for a prefix of `n` bytes.
abbrev pub begins_with : Bytes → Bytes → Bool
begins_with prefix buffer = bytes_eq (take (length prefix) buffer) prefix

-- The body of the loop, on the buffer with a line in it.
unfoldable pub read_line : Reader → Reader
read_line r =
    if begins_with (codes "m=") r.buffer
    then record r { media_type = take 5 (drop 2 r.buffer) }
    else if begins_with (codes "a=control:") r.buffer
    then elim (media_type_of r.media_type) [
      | none ↦ r
      | some t ↦ record r { stream_types = assign (c_str (drop 10 r.buffer)) t r.stream_types }
    ]
    else r

-- `buffer[0]` is not 0.
abbrev pub has_text : Bytes → Bool
has_text [] = false
has_text (c ∷ s) = if c == 0 then false else true

-- The loop; a round takes at least one byte from the stream.
unfoldable pub read_lines : ℕ → Bytes → Reader → Reader
read_lines zero s r = r
read_lines (suc rounds) s r = elim (getline s) [
  | none ↦ r
  | some (line, rest) ↦
      let r' = record r { buffer = blit 0 (line ++ 0 ∷ []) r.buffer } in
      let more = read_lines rounds rest (read_line r') in if has_text r'.buffer then more else r'
]

unfoldable pub map_streams_to_control_ids : Bytes → TypeMap → TypeMap
map_streams_to_control_ids sdp m =
    (read_lines (length sdp + 1) sdp
      (record { buffer = replicate 64 0; media_type = []; stream_types = m })).stream_types
