-- ===== src/Util/Npt/Clock/Range.antt =====
-- A range that is written in seconds is read back from the header.
use rtp_server.Common.{
  ℕ, ◌≤◌, ◌≡◌, refl, ap, ◌∙◌, Option, some, [], ◌∷◌, ◌++◌, length, Bytes, codes, NoneOf, find,
  is_prefix,
}
use rtp_server.Exception.{ok}
use rtp_server.Util.Split.{split}
use rtp_server.Util.Split.Pieces.{split_lem, pieces-append, pieces_whole}
use rtp_server.Util.Npt.{parse_parts, parse_range_header}
use rtp_server.Util.Npt.Clock.{new_npt, get_time, format_range}

-- The text of a time in seconds, as the library writes and reads it.
pub record IsDecimal {Time : Type 0} (to_decimal : Time → Option Bytes)
    (read_float : Bytes → Option Time) (t : Time) (text : Bytes) : Type 0 where
  pub written : to_decimal t ≡ some text
  pub read_back : read_float text ≡ some t
  pub no_dash : NoneOf b'-' text
  pub not_empty : 1 ≤ length text

split_range :
    (x y : Bytes)
    → NoneOf b'-' x
    → NoneOf b'-' y
    → 1 ≤ length y
    → split (x ++ b'-' ∷ y) b'-' ≡ x ∷ y ∷ []
split_range x y zx zy h =
    split_lem (x ++ b'-' ∷ y) b'-'
    ∙ (pieces-append b'-' x y zx ∙ ap (◌∷◌ x) (pieces_whole b'-' y zy h))

-- Two times of which the library writes the hundredths as texts without a dash that it reads back:
-- the range that PLAY answers with is read by `parse_range_header` as the hundredths of the times.
pub parse_range_header-format_range :
    {Time : Type 0} (zero_time : Time) (to_int : Time → ℕ) (hundredths : Time → Time)
    (to_decimal : Time → Option Bytes) (read_float : Bytes → Option Time) (b e : Time) (x y : Bytes)
    → IsDecimal to_decimal read_float (hundredths b) x
    → IsDecimal to_decimal read_float (hundredths e) y
    → (text : Bytes) × (format_range Time to_int hundredths to_decimal
          (new_npt Time to_int hundredths to_decimal b)
          (new_npt Time to_int hundredths to_decimal e)
        ≡ ok text)
      × (parse_range_header Time zero_time read_float (codes "npt=" ++ text)
          ≡ ok (hundredths b, hundredths e))
unfolding format_range get_time parse_range_header parse_parts find is_prefix
parse_range_header-format_range zero_time to_int hundredths to_decimal read_float b e x y p q = (
  x ++ b'-' ∷ y,
  rw (p.written, q.written) refl,
  rw (split_range x y p.no_dash q.no_dash q.not_empty, p.read_back, q.read_back) refl,
)
