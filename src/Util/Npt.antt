-- ===== src/Util/Npt.antt =====
-- `NPT::parse_range_header` of src/util/NPT.cpp. `read_float` is `std::from_chars` into a `float`.
pub mod Clock
use rtp_server.Common.{◌+◌, Option, none, some, List, [], ◌∷◌, drop, Bytes, codes, find}
use rtp_server.Exception.{bad_npt, Result, ok, ◌>>=◌, or_throw}
use rtp_server.Util.Split.{split}

module _ (Time : Type 0) (zero_time : Time) (read_float : Bytes → Option Time) where
  unfoldable pub parse_parts : List Bytes → Result (Time × Time)
  parse_parts [] = ok (zero_time, zero_time)
  parse_parts (a ∷ []) = do first ← or_throw (read_float a) bad_npt; ok (first, zero_time)
  parse_parts (a ∷ b ∷ _) = do
    first ← or_throw (read_float a) bad_npt
    second ← or_throw (read_float b) bad_npt
    ok (first, second)

  unfoldable pub parse_range_header : Bytes → Result (Time × Time)
  parse_range_header value = elim (find (codes "npt=") value) [
    | none ↦ ok (zero_time, zero_time)
    | some i ↦ parse_parts (split (drop (i + 4) value) b'-')
  ]
