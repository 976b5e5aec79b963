-- ===== src/Util/Split.antt =====
-- `util::split` and `util::find_nth_of` of src/util/misc.cpp.
pub mod Pieces
pub mod Nth
use rtp_server.Common.{
  ℕ, zero, suc, ◌+◌, ◌-◌, ◌≤◌, ◌<◌, ◌≡◌, refl, sym, ap, ◌∙◌, ◌≢◌, ◌⊎◌, inl, inr, Bool, true, false,
  Option, none, some, List, [], ◌∷◌, ◌++◌, arith, ltb, leb, leb→le, ◌==◌, if◌then◌else◌, Bool-cases,
  Option-cases, length, take, drop, length-drop, get_elem?, Bytes, NoneOf, find, find_at, slice,
  find_char_lt, lt→ltb, ltb→lt, lt-leb, drop-drop,
}
use mathlib.Core.Option

-- The loop of `split` from index `i` on; each round passes at least one byte.
pub split_from : ℕ → Bytes → ℕ → ℕ → List Bytes
unfolding find_at slice
split_from zero s c i = []
split_from (suc f) s c i =
    let j = Option.get_or (find_at (c ∷ []) s i) (length s) in
    let rest = split_from f s c (j + 1) in if ltb i (length s) then slice i j s ∷ rest else []

-- `length s + 1` rounds are enough (`split_lem`).
unfoldable pub split : Bytes → ℕ → List Bytes
unfolding split_from
split s c = split_from (length s + 1) s c 0

-- The loop of `find_nth_of`, with its two counters.
unfoldable pub find_nth_from : Bytes → ℕ → ℕ → ℕ → Option ℕ
find_nth_from [] c remaining i = if remaining == 0 then some i else none
find_nth_from (sc ∷ s) c remaining i =
    let next = find_nth_from s c (if sc == c then remaining - 1 else remaining) (i + 1) in
    if sc == c then (if remaining == 1 then some i else next) else next

-- `none` is `std::string::npos`.
unfoldable pub find_nth_of : Bytes → ℕ → ℕ → Option ℕ
unfolding find_nth_from
find_nth_of s c n = if n == 0 then none else find_nth_from s c n 0

-- The same pieces by one walk over the text.
abbrev pub extend_first : ℕ → List Bytes → List Bytes
extend_first x [] = (x ∷ []) ∷ []
extend_first x (p ∷ ps) = (x ∷ p) ∷ ps

unfoldable pub pieces : ℕ → Bytes → List Bytes
pieces c [] = []
pieces c (x ∷ s) = let rest = pieces c s in if x == c then [] ∷ rest else extend_first x rest
