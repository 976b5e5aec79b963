-- ===== src/Util/Npt/Clock/Digits.antt =====
-- The text of a play time in hours, minutes and seconds is read back.
use rtp_server.Common.{
  ℕ, ◌+◌, ◌-◌, ◌*◌, ◌/◌, ◌^◌, ◌≤◌, ◌<◌, ◌≡◌, refl, ap, sym, ◌∙◌, arith, Option, some, none, List,
  [], ◌∷◌, ◌++◌, length, length-append, take, take_at, append_assoc, Bytes, NoneOf, inr, append-nil,
}
use rtp_server.Exception.{ok}
use rtp_server.Util.Decimal.{
  to_chars, from_chars, from_chars-to_chars, length-to_chars_below, to_chars-AllDigits,
  AllDigits-NoneOf,
}
use rtp_server.Util.Split.{split}
use rtp_server.Util.Split.Pieces.{split_lem, pieces-append, pieces_whole}
use rtp_server.Util.Npt.Clock.{append_segment, hhmmss}

append_segment-fits :
    (segment : ℕ) (s : Bytes)
    → length s + length (to_chars segment) ≤ 14
    → append_segment segment s ≡ ok (s ++ (to_chars segment ++ b':' ∷ []))
unfolding append_segment
append_segment-fits segment s h = ground arith

-- The three numbers.
abbrev pub hours_of : ℕ → ℕ
hours_of t = t / 3600

abbrev pub minutes_of : ℕ → ℕ
minutes_of t = (t - t / 3600 * 3600) / 60

abbrev pub seconds_of : ℕ → ℕ
seconds_of t = t - t / 3600 * 3600 - (t - t / 3600 * 3600) / 60 * 60

abbrev pub clock_text : ℕ → ℕ → ℕ → Bytes
clock_text h m s = to_chars h ++ b':' ∷ (to_chars m ++ b':' ∷ to_chars s)

hhmmss-clock_text :
    (t : ℕ) → t < 2 ^ 31 → hhmmss t ≡ ok (clock_text (hours_of t) (minutes_of t) (seconds_of t))
unfolding hhmmss
hhmmss-clock_text t small =
    let a : Bytes = to_chars (hours_of t) in
    let b : Bytes = to_chars (minutes_of t) in
    let c : Bytes = to_chars (seconds_of t) in
    let la : length a ≤ 6 = length-to_chars_below 5 (hours_of t) (omega arith) in
    let lb : length b ≤ 2 = length-to_chars_below 1 (minutes_of t) (omega arith) in
    let lc : length c ≤ 2 = length-to_chars_below 1 (seconds_of t) (omega arith) in
    let e1 = append_segment-fits (hours_of t) [] (omega arith) in
    let p1 : Bytes = a ++ b':' ∷ [] in
    let l1 : length p1 ≡ length a + 1 = omega (arith, length-append a (b':' ∷ [])) in
    let p2 : Bytes = p1 ++ (b ++ b':' ∷ []) in
    let l2 : length p2 ≡ length p1 + (length b + 1) =
      omega (arith, length-append p1 (b ++ b':' ∷ []), length-append b (b':' ∷ [])) in
    let p3 : Bytes = p2 ++ (c ++ b':' ∷ []) in
    let whole : p3 ≡ clock_text (hours_of t) (minutes_of t) (seconds_of t) ++ b':' ∷ [] =
      simp append_assoc in
    let cut : take (length p3 - 1) p3 ≡ clock_text (hours_of t) (minutes_of t) (seconds_of t) =
      rw whole (
        take_at _ (clock_text (hours_of t) (minutes_of t) (seconds_of t)) (b':' ∷ []) (
          omega (
            arith,
            length-append (clock_text (hours_of t) (minutes_of t) (seconds_of t)) (b':' ∷ []),
          ))) in
    rw
      (
        hhmmss,
        e1,
        append_segment-fits (minutes_of t) p1 (omega arith),
        append_segment-fits (seconds_of t) p2 (omega arith),
        cut,
      )
      refl

-- A text of three pieces at its colons, as a number of seconds.
abbrev pub seconds_in : Option ℕ → Option ℕ → Option ℕ → Option ℕ
seconds_in (some h) (some m) (some s) = some (h * 3600 + m * 60 + s)
seconds_in _ _ _ = none

unfoldable pub read_pieces : List Bytes → Option ℕ
read_pieces (h ∷ m ∷ s ∷ []) =
    seconds_in (from_chars (2 ^ 31) h) (from_chars 60 m) (from_chars 60 s)
read_pieces _ = none

read_number : (limit n : ℕ) → n < limit → limit ≤ 2 ^ 64 → from_chars limit (to_chars n) ≡ some n
read_number limit n h l =
    ap (from_chars limit) (sym (append-nil (to_chars n))) ∙ from_chars-to_chars limit n [] h l tt

from_chars_not_empty : (limit n : ℕ) (s : Bytes) → from_chars limit s ≡ some n → 1 ≤ length s
unfolding from_chars
from_chars_not_empty limit n [] h = absurd (ground arith)
from_chars_not_empty limit n (c ∷ s) h = omega arith

NoneOf-to_chars : (n : ℕ) → NoneOf b':' (to_chars n)
NoneOf-to_chars n = AllDigits-NoneOf b':' (to_chars n) (inr (omega arith)) (to_chars-AllDigits n)

split-clock_text :
    (h m s : ℕ) → s < 60 → split (clock_text h m s) b':' ≡ to_chars h ∷ to_chars m ∷ to_chars s ∷ []
split-clock_text h m s b =
    let last =
      pieces_whole b':' (to_chars s) (NoneOf-to_chars s)
        (from_chars_not_empty 60 s (to_chars s) (read_number 60 s b (omega arith))) in
    split_lem (clock_text h m s) b':'
    ∙ (pieces-append b':' (to_chars h) (to_chars m ++ b':' ∷ to_chars s) (NoneOf-to_chars h)
        ∙ ap (◌∷◌ (to_chars h)) (
            pieces-append b':' (to_chars m) (to_chars s) (NoneOf-to_chars m)
            ∙ ap (◌∷◌ (to_chars m)) last))

-- A number of seconds below 2 ^ 31 is written, and the text, taken apart at its colons, is read back:
-- minutes and seconds below 60, and the same number of seconds in all.
pub hhmmss-read_pieces :
    (t : ℕ)
    → t < 2 ^ 31
    → (text : Bytes) × (hhmmss t ≡ ok text)
      × (length text ≤ 12)
      × (read_pieces (split text b':') ≡ some t)
unfolding read_pieces
hhmmss-read_pieces t small =
    let a : Bytes = to_chars (hours_of t) in
    let b : Bytes = to_chars (minutes_of t) in
    let c : Bytes = to_chars (seconds_of t) in
    let cut : split (clock_text (hours_of t) (minutes_of t) (seconds_of t)) b':' ≡ a ∷ b ∷ c ∷ [] =
      split-clock_text (hours_of t) (minutes_of t) (seconds_of t) (omega arith) in
    let ra : from_chars (2 ^ 31) a ≡ some (hours_of t) =
      read_number (2 ^ 31) (hours_of t) (omega arith) (omega arith) in
    let rb : from_chars 60 b ≡ some (minutes_of t) =
      read_number 60 (minutes_of t) (omega arith) (omega arith) in
    let rc : from_chars 60 c ≡ some (seconds_of t) =
      read_number 60 (seconds_of t) (omega arith) (omega arith) in
    (
      clock_text (hours_of t) (minutes_of t) (seconds_of t),
      hhmmss-clock_text t small,
      omega (
        arith,
        length-append a (b':' ∷ (b ++ b':' ∷ c)),
        length-append b (b':' ∷ c),
        length-to_chars_below 5 (hours_of t) (omega arith),
        length-to_chars_below 1 (minutes_of t) (omega arith),
        length-to_chars_below 1 (seconds_of t) (omega arith),
      ),
      rw (cut, read_pieces, ra, rb, rc) (ap some (omega arith)),
    )
