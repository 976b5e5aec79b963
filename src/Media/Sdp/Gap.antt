-- ===== src/Media/Sdp/Gap.antt =====
-- A round of the loop of `get_sdp`, on the buffer in its parts.
use rtp_server.Common.{
  ℕ, zero, suc, ◌+◌, ◌-◌, ◌≤◌, ◌≡◌, refl, sym, ap, ◌∙◌, arith, Bool, true, false, ◌||◌, Option,
  some, [], ◌∷◌, ◌++◌, ◌==◌, length, length-append, get_elem?, take, drop, take_at, drop_at,
  drop_inside, drop-drop, drop-drop, length-drop, append_assoc, blit, Bytes,
}
use rtp_server.Media.Sdp.{byte_is, memmove, close_gap, remove_from}

-- The buffer between two rounds: what is moved, the gap that the carriage returns leave, what is
-- read behind the last of them, and the rest.
abbrev pub laid : Bytes → Bytes → Bytes → Bytes → Bytes
laid moved gap seen rest = moved ++ (gap ++ (seen ++ rest))

pub get_elem?-append :
    (i : ℕ) (xs : Bytes) (c : ℕ) (ys : Bytes) → length xs ≡ i → get_elem? (xs ++ c ∷ ys) i ≡ some c
get_elem?-append zero [] c ys e = refl
get_elem?-append (suc i) [] c ys e = absurd (omega (arith, e))
get_elem?-append zero (x ∷ xs) c ys e = absurd (omega (arith, e))
get_elem?-append (suc i) (x ∷ xs) c ys e = get_elem?-append i xs c ys (omega (arith, e))

-- The move of one piece, with the byte `c` behind it.
pub memmove-laid :
    (dst src size : ℕ) (moved gap seen : Bytes) (c : ℕ) (rest : Bytes)
    → length moved ≡ dst
    → length moved + length gap ≡ src
    → length seen + 1 ≡ size
    → 1 ≤ length gap
    → memmove dst src size (laid moved gap seen (c ∷ rest))
      ≡ laid moved [] (seen ++ c ∷ []) (drop size (gap ++ (seen ++ c ∷ [])) ++ rest)
unfolding blit
memmove-laid dst src size moved gap seen c rest d s z g =
    let piece : Bytes = seen ++ c ∷ [] in
    let lp : length piece ≡ size = omega (arith, length-append seen (c ∷ []), z) in
    let e0 : laid moved gap seen (c ∷ rest) ≡ (moved ++ gap) ++ (piece ++ rest) =
      simp append_assoc in
    let e1 : drop src (laid moved gap seen (c ∷ rest)) ≡ piece ++ rest =
      rw e0
        (drop_at src (moved ++ gap) (piece ++ rest) (omega (arith, length-append moved gap, s))) in
    let e2 : take size (piece ++ rest) ≡ piece = take_at size piece rest lp in
    let e3 : drop dst (laid moved gap seen (c ∷ rest)) ≡ (gap ++ piece) ++ rest =
      drop_at dst moved (gap ++ (seen ++ c ∷ rest)) d ∙ simp append_assoc in
    let e4 : drop (dst + size) (laid moved gap seen (c ∷ rest)) ≡ drop size (gap ++ piece) ++ rest =
      sym (drop-drop size dst (laid moved gap seen (c ∷ rest)))
      ∙ (ap (drop size) e3
          ∙ drop_inside size (gap ++ piece) rest (omega (arith, length-append gap piece, lp))) in
    rw (e1, e2, lp, e4, take_at dst moved (gap ++ (seen ++ c ∷ rest)) d) refl

-- One round more, at a byte that is no carriage return.
pub round_seen :
    (moved gap seen : Bytes) (c : ℕ) (rest : Bytes)
    → laid moved gap seen (c ∷ rest) ≡ laid moved gap (seen ++ c ∷ []) rest
round_seen moved gap seen c rest = simp append_assoc

pub length-laid :
    (moved gap seen rest : Bytes)
    → length (laid moved gap seen rest) ≡ length moved + (length gap + (length seen + length rest))
length-laid moved gap seen rest = omega (
  arith,
  length-append moved (gap ++ (seen ++ rest)),
  length-append gap (seen ++ rest),
  length-append seen rest,
)

abbrev pub stops : ℕ → ℕ → Bytes → Bool
stops i n buffer = i == n || byte_is b'\r' (get_elem? buffer i)

pub no_round :
    (i n : ℕ) (start : Option ℕ) (count : ℕ) (buffer : Bytes)
    → remove_from 0 i n start count buffer ≡ buffer
unfolding remove_from
no_round i n start count buffer = refl

pub round_goes_on :
    (rounds i n count : ℕ) (start : Option ℕ) (buffer : Bytes)
    → stops i n buffer ≡ false
    → remove_from (suc rounds) i n start count buffer
      ≡ remove_from rounds (i + 1) n start count buffer
unfolding remove_from
round_goes_on rounds i n count start buffer h = rw h refl

pub round_stops :
    (rounds i n count : ℕ) (start : Option ℕ) (buffer : Bytes)
    → stops i n buffer ≡ true
    → remove_from (suc rounds) i n start count buffer ≡ (
        let (count', buffer') = close_gap i start count buffer in
        remove_from rounds (i + 1) n (some i) count' buffer')
unfolding remove_from
round_stops rounds i n count start buffer h = rw h refl

-- In a round at the byte `c`.
pub stops_at :
    (moved gap seen : Bytes) (c : ℕ) (rest : Bytes) (i n : ℕ)
    → length moved + length gap + length seen ≡ i
    → (i == n) ≡ false
    → stops i n (laid moved gap seen (c ∷ rest)) ≡ (c == b'\r')
stops_at moved gap seen c rest i n a b =
    let e : laid moved gap seen (c ∷ rest) ≡ (moved ++ (gap ++ seen)) ++ c ∷ rest =
      simp append_assoc in
    let l : length (moved ++ (gap ++ seen)) ≡ i =
      omega (arith, length-append moved (gap ++ seen), length-append gap seen, a) in
    rw (e, b, get_elem?-append i (moved ++ (gap ++ seen)) c rest l) refl

-- The piece in front of the byte `c`, moved; the buffer as it is then.
abbrev pub new_gap : ℕ → Bytes → Bytes → ℕ → Bytes
new_gap size gap seen c = drop size (gap ++ (seen ++ c ∷ []))

pub length-new_gap :
    (size : ℕ) (gap seen : Bytes) (c : ℕ)
    → length seen + 1 ≡ size
    → length (new_gap size gap seen c) ≡ length gap
length-new_gap size gap seen c e = omega (
  arith,
  length-drop size (gap ++ (seen ++ c ∷ [])),
  length-append gap (seen ++ c ∷ []),
  length-append seen (c ∷ []),
  e,
)

module _ (moved gap seen : Bytes) (i start count : ℕ) (g : length moved + length gap ≡ start + 1)
    (k : length moved + count ≡ start) (a : length moved + length gap + length seen ≡ i) where
  pub gap_closed :
      (c : ℕ) (rest : Bytes)
      → memmove (start - count) (start + 1) (i - start) (laid moved gap seen (c ∷ rest))
        ≡ laid moved [] (seen ++ c ∷ []) (new_gap (i - start) gap seen c ++ rest)
  gap_closed c rest =
      memmove-laid (start - count) (start + 1) (i - start) moved gap seen c rest (omega arith)
        (omega arith) (omega arith) (omega arith)
