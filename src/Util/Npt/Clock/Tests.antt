-- ===== src/Util/Npt/Clock/Tests.antt =====
-- Play times at concrete ones.
use rtp_server.Common.{ℕ, ◌^◌, ◌≡◌, refl, arith, Option, some, ◌++◌, Bytes, codes, all-NoneOf}
use rtp_server.Exception.{ok}
use rtp_server.Util.Decimal.{to_chars, from_chars}
use rtp_server.Util.Npt.{parse_range_header}
use rtp_server.Util.Npt.Clock.{new_npt, format_range}
use rtp_server.Util.Npt.Clock.Range.{IsDecimal, parse_range_header-format_range}

-- Whole seconds for times.
abbrev to_decimal : ℕ → Option Bytes
to_decimal n = some (to_chars n)

abbrev read_float : Bytes → Option ℕ
read_float = from_chars (2 ^ 31)

five-IsDecimal : IsDecimal to_decimal read_float 5 (codes "5")
unfolding to_chars from_chars
five-IsDecimal = record {
  written = refl;
  read_back = refl;
  no_dash = all-NoneOf b'-' (codes "5") refl;
  not_empty = omega arith;
}

ten-IsDecimal : IsDecimal to_decimal read_float 10 (codes "10")
unfolding to_chars from_chars
ten-IsDecimal = record {
  written = refl;
  read_back = refl;
  no_dash = all-NoneOf b'-' (codes "10") refl;
  not_empty = omega arith;
}

parse_range_header-format_range_example :
    (text : Bytes) × (format_range ℕ
        (λ n. n)
        (λ n. n)
        to_decimal
        (new_npt ℕ (λ n. n) (λ n. n) to_decimal 5)
        (new_npt ℕ (λ n. n) (λ n. n) to_decimal 10)
      ≡ ok text)
    × (parse_range_header ℕ 0 read_float (codes "npt=" ++ text) ≡ ok (5, 10))
parse_range_header-format_range_example =
    parse_range_header-format_range 0 (λ n. n) (λ n. n) to_decimal read_float 5 10 (codes "5")
      (codes "10") five-IsDecimal ten-IsDecimal
