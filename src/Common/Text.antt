-- ===== src/Common/Text.antt =====
-- Texts as lists of bytes, and the members of `std::string` that the sources call: `find`, slices,
-- and `tolower` and `toupper` in the C locale.
use Prim.Native.Nat.{ℕ, zero, suc, ◌+◌, ◌-◌, ◌<◌}
use Prim.Native.Char.{code}
use Prim.Native.String.{String}
use mathlib.Core.Path.{◌≡◌, refl}
use mathlib.Core.Logic.{◌≢◌, ◌↔◌}
use mathlib.Core.Bool.{Bool, true, false, ◌&&◌}
use mathlib.Core.List.{List, [], ◌∷◌, ◌++◌, map}
use mathlib.Core.Option.{Option, none, some}
use mathlib.Core.Option
use native.Mathlib.Omega.{arith}
use rtp_server.Common.Tests.{leb, ◌==◌, if◌then◌else◌}
use rtp_server.Common.Lists.{length, take, drop, drop-append, take-append, take_all, All}

abbrev pub Bytes : Type 0
Bytes = List ℕ

-- The code points of a literal: its bytes, since every literal here is ASCII.
abbrev pub codes : String → Bytes
codes String.[] = []
codes (String.◌∷◌ c s) = code c ∷ codes s

abbrev pub NoneOf : ℕ → Bytes → Type 0
NoneOf c = All (λ b. b ≢ c)

unfoldable pub bytes_eq : Bytes → Bytes → Bool
bytes_eq [] [] = true
bytes_eq (x ∷ xs) (y ∷ ys) = x == y && bytes_eq xs ys
bytes_eq _ _ = false

pub bytes_eq_iff : (a b : Bytes) → (bytes_eq a b ≡ true) ↔ (a ≡ b)
unfolding bytes_eq
bytes_eq_iff (x ∷ a) (y ∷ b) = ground (arith, bytes_eq_iff a b)
bytes_eq_iff _ _ = ground arith

pub bytes_eq_refl : (a : Bytes) → bytes_eq a a ≡ true
bytes_eq_refl a = (bytes_eq_iff a a).1 refl

unfoldable pub is_prefix : Bytes → Bytes → Bool
is_prefix [] s = true
is_prefix (p ∷ ps) [] = false
is_prefix (p ∷ ps) (c ∷ s) = p == c && is_prefix ps s

-- `s.find(pattern)`, with `none` for `npos`.
unfoldable pub find : Bytes → Bytes → Option ℕ
unfolding is_prefix
find p [] = if is_prefix p [] then some 0 else none
find p (c ∷ s) = if is_prefix p (c ∷ s) then some 0 else Option.map suc (find p s)

-- `s.find(pattern, i)`; a start past the end finds nothing.
unfoldable pub find_at : Bytes → Bytes → ℕ → Option ℕ
find_at p s i = if leb i (length s) then Option.map (λ k. i + k) (find p (drop i s)) else none

-- The bytes from `i` up to `j`.
unfoldable pub slice : ℕ → ℕ → Bytes → Bytes
slice i j s = take (j - i) (drop i s)

unfoldable pub to_lower : ℕ → ℕ
to_lower c = if leb b'A' c && leb c b'Z' then c + 32 else c

unfoldable pub to_upper : ℕ → ℕ
to_upper c = if leb b'a' c && leb c b'z' then c - 32 else c

-- A byte that does not stand in a text is not found there.
pub find_char_free : (c : ℕ) (s : Bytes) → NoneOf c s → find (c ∷ []) s ≡ none
unfolding find
find_char_free c [] h = refl
find_char_free c (x ∷ s) h = ground (arith, find_char_free c s h.1)

-- The first such byte stands at the end of the part before it.
pub find_char-append :
    (c : ℕ) (s rest : Bytes) → NoneOf c s → find (c ∷ []) (s ++ c ∷ rest) ≡ some (length s)
unfolding find
find_char-append c [] rest h = ground arith
find_char-append c (x ∷ s) rest h = ground (arith, find_char-append c s rest h.1)

pub find_char_lt : (c : ℕ) (s : Bytes) {k : ℕ} → find (c ∷ []) s ≡ some k → k < length s
unfolding find
find_char_lt c [] h = ground arith
find_char_lt c (x ∷ s) {k = zero} h = omega arith
find_char_lt c (x ∷ s) {k = suc k} h = ground (arith, find_char_lt c s {k = k})

-- A two-byte pattern is first found behind a text without its first byte.
pub find-append_miss :
    (c d : ℕ) (s rest : Bytes)
    → NoneOf c s
    → find (c ∷ d ∷ []) (s ++ c ∷ d ∷ rest) ≡ some (length s)
unfolding find
find-append_miss c d [] rest h = ground arith
find-append_miss c d (x ∷ s) rest h = ground (arith, find-append_miss c d s rest h.1)

pub slice-append : (s t u : Bytes) → slice (length s) (length s + length t) (s ++ (t ++ u)) ≡ t
unfolding slice
slice-append s t u =
    let e : length s + length t - length s ≡ length t = omega arith in
    rw (drop-append s (t ++ u), e) (take-append t u)

pub slice-append_tail : (s t : Bytes) → slice (length s) (length s + length t) (s ++ t) ≡ t
unfolding slice
slice-append_tail s t =
    let e : length s + length t - length s ≡ length t = omega arith in
    rw (drop-append s t, e) (take_all t)

-- No byte is an upper-case letter.
abbrev pub Lowercase : Bytes → Type 0
Lowercase = All (λ c. to_lower c ≡ c)

pub to_lower-Lowercase : (s : Bytes) → Lowercase s → map to_lower s ≡ s
to_lower-Lowercase [] h = refl
to_lower-Lowercase (c ∷ s) h = rw (h.0, to_lower-Lowercase s h.1)

-- The bytes before the first 0.
abbrev pub c_str : Bytes → Bytes
c_str [] = []
c_str (c ∷ s) = if c == 0 then [] else c ∷ c_str s

-- A text without 0 behind which a 0 stands.
pub c_str-append : (s t : Bytes) → NoneOf 0 s → c_str (s ++ 0 ∷ t) ≡ s
c_str-append [] t h = refl
c_str-append (c ∷ s) t h = ground (arith, c_str-append s t h.1)
