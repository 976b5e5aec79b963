-- ===== src/Util/Decimal.antt =====
-- `std::to_chars` and `std::from_chars` on unsigned integers in base 10, and `util::int_to_string`
-- of src/util/misc.h.
use rtp_server.Common.{
  ℕ, zero, suc, ◌+◌, ◌-◌, ◌*◌, ◌/◌, ◌%◌, ◌^◌, ◌≤◌, ◌<◌, ◌≡◌, refl, ap, ◌∙◌, Bool, true, false, ◌&&◌,
  Option, none, some, [], ◌∷◌, ◌++◌, arith, ltb, leb, if◌then◌else◌, Bool-cases, ◌⊎◌, inl, inr,
  length, length-append, length-replicate, replicate, All, Bytes, NoneOf,
}

abbrev pub is_digit : ℕ → Bool
is_digit c = leb b'0' c && leb c b'9'

-- A 64-bit number has at most twenty digits.
abbrev pub max_digits : ℕ
max_digits = 20

pub digits_onto : ℕ → ℕ → Bytes → Bytes
digits_onto zero n acc = acc
digits_onto (suc f) n acc =
    let more = digits_onto f (n / 10) ((b'0' + n % 10) ∷ acc) in
    if ltb n 10 then (b'0' + n) ∷ acc else more

-- The digits that `std::to_chars` writes, for a number of at most 64 bits.
unfoldable pub to_chars : ℕ → Bytes
unfolding digits_onto
to_chars n = digits_onto max_digits n []

-- The value of the longest run of digits, continuing from `acc`.
pub read_digits : ℕ → Bytes → ℕ
read_digits acc [] = acc
read_digits acc (c ∷ s) = if is_digit c then read_digits (10 * acc + (c - b'0')) s else acc

-- `std::from_chars` into an unsigned integer below `limit`: no sign and no space is skipped, what
-- follows the digits is ignored, and `none` is either of its two errors.
unfoldable pub from_chars : ℕ → Bytes → Option ℕ
unfolding read_digits
from_chars limit [] = none
from_chars limit (c ∷ s) =
    if is_digit c
    then (let n = read_digits 0 (c ∷ s) in if ltb n limit then some n else none)
    else none

-- `util::int_to_string`: the digits stand in a buffer of twenty bytes, whose size is kept.
pub int_to_string : ℕ → Bytes
int_to_string i = to_chars i ++ replicate (20 - length (to_chars i)) 0

-- A text that does not begin with a digit.
abbrev pub NoDigit : Bytes → Type 0
NoDigit [] = Unit {0}
NoDigit (c ∷ s) = is_digit c ≡ false

read_digits-NoDigit : (acc : ℕ) (rest : Bytes) → NoDigit rest → read_digits acc rest ≡ acc
unfolding read_digits
read_digits-NoDigit acc [] h = refl
read_digits-NoDigit acc (c ∷ s) h = rw h

-- The digits of `n` in front of `acc` are read as `n`.
read_digits-onto :
    (f n : ℕ) (acc : Bytes) → n < 10 ^ f → read_digits 0 (digits_onto f n acc) ≡ read_digits n acc
unfolding read_digits digits_onto
read_digits-onto zero n acc h = ap (λ k. read_digits k acc) (omega arith)
read_digits-onto (suc f) n acc h = elim (Bool-cases (ltb n 10)) [
  | inl small ↦ rw small (ground arith)
  | inr large ↦
      rw large (read_digits-onto f (n / 10) ((b'0' + n % 10) ∷ acc) (ground arith) ∙ ground arith)
]

pub data Digits : Bytes → Type 0 where
  last : {c : ℕ} {s : Bytes} → is_digit c ≡ true → Digits (c ∷ s)

digits_onto-Digits : (f n : ℕ) (acc : Bytes) → Digits acc ⊎ (0 < f) → Digits (digits_onto f n acc)
unfolding digits_onto
digits_onto-Digits zero n acc (inl d) = d
digits_onto-Digits zero n acc (inr h) = absurd (omega arith)
digits_onto-Digits (suc f) n acc d = elim (Bool-cases (ltb n 10)) [
  | inl small ↦ rw small (last (ground arith))
  | inr large ↦
      rw large (digits_onto-Digits f (n / 10) ((b'0' + n % 10) ∷ acc) (inl (last (ground arith))))
]

digits_onto-append :
    (f n : ℕ) (acc rest : Bytes) → digits_onto f n acc ++ rest ≡ digits_onto f n (acc ++ rest)
unfolding digits_onto
digits_onto-append zero n acc rest = refl
digits_onto-append (suc f) n acc rest = elim (Bool-cases (ltb n 10)) [
  | inl small ↦ rw small
  | inr large ↦ rw large (digits_onto-append f (n / 10) ((b'0' + n % 10) ∷ acc) rest)
]

from_chars-Digits :
    (limit n : ℕ) (s : Bytes)
    → Digits s
    → read_digits 0 s ≡ n
    → n < limit
    → from_chars limit s ≡ some n
unfolding from_chars
from_chars-Digits limit n [] d e h = elim d [ ]
from_chars-Digits limit n (c ∷ s) (last d) e h = ground (arith)

-- A number is read back from its digits, whatever text follows them.
pub from_chars-to_chars :
    (limit n : ℕ) (rest : Bytes)
    → n < limit
    → limit ≤ 2 ^ 64
    → NoDigit rest
    → from_chars limit (to_chars n ++ rest) ≡ some n
unfolding to_chars
from_chars-to_chars limit n rest h l d = rw (digits_onto-append max_digits n [] rest) (
    from_chars-Digits limit n _ (digits_onto-Digits max_digits n rest (inr (omega arith)))
      (read_digits-onto max_digits n rest (omega arith) ∙ read_digits-NoDigit n rest d) h)

length-digits_onto : (f n : ℕ) (acc : Bytes) → length (digits_onto f n acc) ≤ f + length acc
unfolding digits_onto
length-digits_onto zero n acc = omega arith
length-digits_onto (suc f) n acc =
    ground (arith, length-digits_onto f (n / 10) ((b'0' + n % 10) ∷ acc))

pub length-to_chars : (n : ℕ) → length (to_chars n) ≤ 20
unfolding to_chars
length-to_chars n = omega (arith, length-digits_onto max_digits n [])

length-digits_onto_below :
    (f k n : ℕ) (acc : Bytes) → n < 10 ^ suc k → length (digits_onto f n acc) ≤ suc k + length acc
unfolding digits_onto
length-digits_onto_below zero k n acc b = omega arith
length-digits_onto_below (suc f) zero n acc b =
    let small : ltb n 10 ≡ true = ground arith in rw small (omega arith)
length-digits_onto_below (suc f) (suc k) n acc b = elim (Bool-cases (ltb n 10)) [
  | inl small ↦ rw small (omega arith)
  | inr large ↦
      rw large (
        omega (arith, length-digits_onto_below f k (n / 10) ((b'0' + n % 10) ∷ acc) (ground arith)))
]

-- A number below 10 ^ (k + 1) has at most k + 1 digits.
pub length-to_chars_below : (k n : ℕ) → n < 10 ^ suc k → length (to_chars n) ≤ suc k
unfolding to_chars
length-to_chars_below k n b = omega (arith, length-digits_onto_below max_digits k n [] b)

-- For every number the result has twenty bytes.
pub length-int_to_string : (i : ℕ) → length (int_to_string i) ≡ 20
unfolding int_to_string
length-int_to_string i =
    let pad : Bytes = replicate (20 - length (to_chars i)) 0 in
    omega (
      arith,
      length-append (to_chars i) pad,
      length-replicate {A = ℕ} (20 - length (to_chars i)) 0,
      length-to_chars i,
    )

pub from_chars_bound : (limit : ℕ) (s : Bytes) {n : ℕ} → from_chars limit s ≡ some n → n < limit
unfolding from_chars
from_chars_bound limit [] h = ground arith
from_chars_bound limit (c ∷ s) h = ground arith

-- The bytes of a number are digits.
abbrev pub AllDigits : Bytes → Type 0
AllDigits = All (λ c. (b'0' ≤ c) × (c ≤ b'9'))

digits_onto-AllDigits : (f n : ℕ) (acc : Bytes) → AllDigits acc → AllDigits (digits_onto f n acc)
unfolding digits_onto
digits_onto-AllDigits zero n acc h = h
digits_onto-AllDigits (suc f) n acc h = elim (Bool-cases (ltb n 10)) [
  | inl small ↦ rw small ((omega arith, ground arith), h)
  | inr large ↦
      rw large
        (digits_onto-AllDigits f (n / 10) ((b'0' + n % 10) ∷ acc) ((omega arith, omega arith), h))
]

pub to_chars-AllDigits : (n : ℕ) → AllDigits (to_chars n)
unfolding to_chars
to_chars-AllDigits n = digits_onto-AllDigits max_digits n [] tt

pub AllDigits-NoneOf : (c : ℕ) (s : Bytes) → (c < b'0') ⊎ (b'9' < c) → AllDigits s → NoneOf c s
AllDigits-NoneOf c [] h d = tt
AllDigits-NoneOf c (x ∷ s) h d = ((λ e. omega arith), AllDigits-NoneOf c s h d.1)
