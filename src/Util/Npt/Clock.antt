-- ===== src/Util/Npt/Clock.antt =====
-- The text of a play time: `NPT::hhmmss`, `get_time` and `format_range` of src/util/NPT.cpp. `to_int`
-- is the conversion of a `float` that is not negative, `hundredths` is DECIMAL_PLACES of one, which
-- cuts it to two decimal places in the arithmetic of the machine, and `to_decimal` is
-- `std::to_chars` into 15 bytes.
pub mod Digits
pub mod Range
mod Tests
use rtp_server.Common.{
  ℕ, ◌+◌, ◌-◌, ◌*◌, ◌/◌, Option, Bool, true, false, List, [], ◌∷◌, ◌++◌, leb, if◌then◌else◌, length,
  take, Bytes,
}
use rtp_server.Exception.{bad_npt, Result, ok, err, ◌>>=◌, or_throw}
use rtp_server.Util.Decimal.{to_chars}

-- A round of the loop: the digits must fit in front of the last of the 15 bytes.
unfoldable pub append_segment : ℕ → Bytes → Result Bytes
append_segment segment s =
    if leb (length (to_chars segment)) (14 - length s)
    then ok (s ++ (to_chars segment ++ b':' ∷ []))
    else err bad_npt

-- The three rounds, and the text without its last colon.
unfoldable pub hhmmss : ℕ → Result Bytes
hhmmss t =
    let hours = t / 3600 in
    let t_mod_h = t - hours * 3600 in
    let minutes = t_mod_h / 60 in
    do
      a ← append_segment hours []
      b ← append_segment minutes a
      c ← append_segment (t_mod_h - minutes * 60) b
      ok (take (length c - 1) c)

pub data Mode : Type 0 where
  seconds clock : Mode

module _ (Time : Type 0) (to_int : Time → ℕ) (hundredths : Time → Time)
    (to_decimal : Time → Option Bytes) where
  pub record Npt : Type 0 where
    pub t : Time
    pub mode : Mode

  -- The constructor, and `set_mode`.
  abbrev pub new_npt : Time → Npt
  new_npt t = record { t = t; mode = seconds }

  abbrev pub set_mode : Mode → Npt → Npt
  set_mode m n = record n { mode = m }

  unfoldable pub get_time : Npt → Result Bytes
  get_time n = elim n.mode [
    | clock ↦ hhmmss (to_int n.t)
    | seconds ↦ or_throw (to_decimal (hundredths n.t)) bad_npt
  ]

  unfoldable pub format_range : Npt → Npt → Result Bytes
  format_range begin end = do a ← get_time begin; b ← get_time end; ok (a ++ b'-' ∷ b)
