-- ===== src/Rtsp/Response/Text.antt =====
-- The text of a response, as the scanner of src/Server/RTSPRequest.cpp reads it.
use rtp_server.Common.{
  ◌+◌, ◌≡◌, refl, ap, ◌∙◌, List, [], ◌∷◌, ◌++◌, append_assoc, map, arith, length, length-append,
  drop, drop-append, All, Bytes, codes,
}
use rtp_server.Rtsp.Headers.{Headers}
use rtp_server.Rtsp.Request.{scan}
use rtp_server.Rtsp.Request.Line.{header_line}
use rtp_server.Rtsp.Request.Loop.{just_lf, NoBreak, IsLine, unlines, scan-unlines, found_eq}
use rtp_server.Rtsp.Request.RoundTrip.{header_lines-IsLine, length-unlines, unlines-append}
use rtp_server.Rtsp.Response.{Response, header_lines, marshal, get_data, get_length}

abbrev pub status_line : Response → Bytes
status_line r = codes "RTSP/1.0 " ++ r.status

header_lines-unlines :
    (hs : Headers) (rest : Bytes)
    → header_lines hs ++ rest ≡ unlines just_lf (map header_line hs) rest
unfolding header_lines
header_lines-unlines [] rest = refl
header_lines-unlines (h ∷ hs) rest = simp append_assoc (rw (header_lines-unlines hs rest))

module _ (iterate : Headers → Headers) (r : Response) where
  abbrev pub lines : List Bytes
  lines = status_line r ∷ map header_line (iterate r.headers)

  data-unlines : get_data (marshal iterate r) ≡ unlines just_lf lines (codes "\n" ++ r.body)
  unfolding get_data marshal
  data-unlines =
      simp append_assoc (rw (header_lines-unlines (iterate r.headers) (codes "\n" ++ r.body)))

  abbrev text : Bytes
  text = get_data (marshal iterate r)

  -- Everything in front of the body.
  abbrev front : Bytes
  front = unlines just_lf lines (codes "\n")

  text-front : text ≡ front ++ r.body
  text-front = data-unlines ∙ unlines-append just_lf lines (codes "\n") r.body

  lines-IsLine : All NoBreak lines → All (IsLine just_lf) lines
  lines-IsLine n = ((n.0, λ e. cc), header_lines-IsLine just_lf (iterate r.headers) n.1)

  scan-text :
      All NoBreak lines
      → scan (length text + 1) text 0 ≡ record {
        parts = lines;
        cursor = length (unlines just_lf lines []);
        header_end = length front;
      }
  scan-text n =
      scan-unlines (length text + 1) just_lf text [] lines r.body data-unlines (lines-IsLine n) tt
        (omega (arith, ap length data-unlines, length-unlines just_lf lines (codes "\n" ++ r.body)))
      ∙ found_eq lines (omega arith) (omega arith)

  length_data : get_length (marshal iterate r) ≡ length text
  unfolding get_length get_data
  length_data = refl

  -- Where no header and no status holds a line end, the scanner of requests splits the text of a
  -- response, in whatever order its headers are walked, into the status line and one line for each
  -- header; what follows the empty line is the body, and `get_length` counts all of it.
  pub scan-marshal :
      All NoBreak lines
      → let text = get_data (marshal iterate r) in
        let found = scan (length text + 1) text 0 in
        (found.parts ≡ lines)
        × (drop found.header_end text ≡ r.body)
        × (get_length (marshal iterate r) ≡ found.header_end + length r.body)
  scan-marshal n =
      rw (scan-text n)
        (refl, ap (drop (length front)) text-front ∙ drop-append front r.body, length_text)
    where
      length_text : get_length (marshal iterate r) ≡ length front + length r.body
      length_text = length_data ∙ ap length text-front ∙ length-append front r.body
