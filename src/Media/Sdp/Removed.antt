-- ===== src/Media/Sdp/Removed.antt =====
-- What the loop of `get_sdp` leaves in the buffer.
use rtp_server.Common.{
  ℕ, suc, ◌+◌, ◌-◌, ◌≡◌, refl, subst, sym, Bool-cases, inl, inr, ap, ◌∙◌, arith, true, false, none,
  some, [], ◌∷◌, ◌++◌, ◌==◌, if◌then◌else◌, length, length-append, append_assoc, Bytes, c_str,
  c_str-append, NoneOf,
}
use rtp_server.Exception.{ok}
use rtp_server.Media.Sdp.{remove_from, get_sdp}
use rtp_server.Media.Sdp.Gap.{
  laid, round_seen, length-laid, no_round, round_goes_on, round_stops, stops_at, new_gap,
  length-new_gap, gap_closed,
}

-- The text without its carriage returns.
abbrev pub without_cr : Bytes → Bytes
without_cr [] = []
without_cr (c ∷ s) = if c == b'\r' then without_cr s else c ∷ without_cr s

-- The text `text` is followed by a 0 in a buffer of `size` bytes.
data Holds (text : Bytes) (size : ℕ) (buffer : Bytes) : Type 0 where
  holds : (tail : Bytes) → buffer ≡ text ++ 0 ∷ tail → length buffer ≡ size → Holds text size buffer

Holds-front : {f g : Bytes} {size : ℕ} {b : Bytes} → f ≡ g → Holds f size b → Holds g size b
Holds-front {size} {b} e h = subst (λ f. Holds f size b) e h

-- The rounds behind the first carriage return, with `text` still to be read.
remove_from-laid :
    (text moved gap seen tail : Bytes) (size i n start count : ℕ)
    → length moved + length gap ≡ start + 1
    → length moved + count ≡ start
    → length moved + length gap + length seen ≡ i
    → i + length text ≡ n
    → length (laid moved gap seen (text ++ 0 ∷ tail)) ≡ size
    → Holds (moved ++ (seen ++ without_cr text)) size (
        remove_from
          (length text + 1)
          i
          n
          (some start)
          count
          (laid moved gap seen (text ++ 0 ∷ tail)))
remove_from-laid [] moved gap seen tail size i n start count g k a b l =
    let buffer : Bytes = laid moved gap seen (0 ∷ tail) in
    let ng : Bytes = new_gap (i - start) gap seen 0 in
    let last : (i == n) ≡ true = ground arith in
    let run : remove_from 1 i n (some start) count buffer
        ≡ laid moved [] (seen ++ 0 ∷ []) (ng ++ tail) =
      round_stops 0 i n count (some start) buffer (rw last refl)
      ∙ (no_round (i + 1) n (some i) (count + 1) _
          ∙ gap_closed moved gap seen i start count g k a 0 tail) in
    subst (Holds (moved ++ (seen ++ [])) size) (sym run) (
      holds (ng ++ tail) (simp append_assoc) (
        omega (
          arith,
          l,
          length-laid moved gap seen (0 ∷ tail),
          length-laid moved [] (seen ++ 0 ∷ []) (ng ++ tail),
          length-append seen (0 ∷ []),
          length-append ng tail,
          length-new_gap (i - start) gap seen 0 (omega arith),
        )))
remove_from-laid (c ∷ text) moved gap seen tail size i n start count g k a b l =
    let rest : Bytes = text ++ 0 ∷ tail in
    let more : (i == n) ≡ false = ground arith in
    let e : suc (length text) + 1 ≡ suc (length text + 1) = omega arith in
    elim (Bool-cases (c == b'\r')) [
      | inr d ↦
          let run =
            round_goes_on (length text + 1) i n count (some start) (laid moved gap seen (c ∷ rest))
              (stops_at moved gap seen c rest i n a more ∙ d) in
          rw (e, d, run, round_seen moved gap seen c rest)
            (Holds-front (ap (λ f. moved ++ f) (append_assoc seen (c ∷ []) (without_cr text))) (
              remove_from-laid text moved gap (seen ++ c ∷ []) tail size (i + 1) n start count g k
                (omega (arith, length-append seen (c ∷ []))) (omega arith)
                (ap length (sym (round_seen moved gap seen c rest)) ∙ l)))
      | inl d ↦
          let run =
            round_stops (length text + 1) i n count (some start) (laid moved gap seen (c ∷ rest))
              (stops_at moved gap seen c rest i n a more ∙ d) in
          rw (e, d, run, gap_closed moved gap seen i start count g k a c rest)
            (let ng : Bytes = new_gap (i - start) gap seen c in
              let lg = length-new_gap (i - start) gap seen c (omega arith) in
              let same : laid (moved ++ seen) (c ∷ ng) [] rest
                  ≡ laid moved [] (seen ++ c ∷ []) (ng ++ rest) =
                simp append_assoc in
              rw (← same, ← append_assoc moved seen (without_cr text))
                (remove_from-laid text (moved ++ seen) (c ∷ ng) [] tail size (i + 1) n i (count + 1)
                  (omega (arith, length-append moved seen, lg))
                  (omega (arith, length-append moved seen))
                  (omega (arith, length-append moved seen, lg)) (omega arith)
                  (omega (
                    arith,
                    l,
                    length-laid moved gap seen (c ∷ rest),
                    length-laid (moved ++ seen) (c ∷ ng) [] rest,
                    length-append moved seen,
                    lg,
                  ))))
    ]

-- The rounds up to the first carriage return.
remove_from-start :
    (text seen tail : Bytes) (size i n : ℕ)
    → length seen ≡ i
    → i + length text ≡ n
    → length (seen ++ (text ++ 0 ∷ tail)) ≡ size
    → Holds
        (seen ++ without_cr text)
        size
        (remove_from (length text + 1) i n none 0 (seen ++ (text ++ 0 ∷ tail)))
remove_from-start [] seen tail size i n a b l =
    let last : (i == n) ≡ true = ground arith in
    let run : remove_from 1 i n none 0 (seen ++ 0 ∷ tail) ≡ seen ++ 0 ∷ tail =
      round_stops 0 i n 0 none (seen ++ 0 ∷ tail) (rw last refl)
      ∙ no_round (i + 1) n (some i) 0 _ in
    subst (Holds (seen ++ []) size) (sym run) (holds tail (simp append_assoc) l)
remove_from-start (c ∷ text) seen tail size i n a b l =
    let rest : Bytes = text ++ 0 ∷ tail in
    let more : (i == n) ≡ false = ground arith in
    let e : suc (length text) + 1 ≡ suc (length text + 1) = omega arith in
    elim (Bool-cases (c == b'\r')) [
      | inr d ↦
          let run =
            round_goes_on (length text + 1) i n 0 none (seen ++ c ∷ rest)
              (stops_at [] [] seen c rest i n (omega arith) more ∙ d) in
          rw (e, d, run, round_seen [] [] seen c rest)
            (Holds-front (append_assoc seen (c ∷ []) (without_cr text)) (
              remove_from-start text (seen ++ c ∷ []) tail size (i + 1) n
                (omega (arith, length-append seen (c ∷ []))) (omega arith)
                (ap length (sym (round_seen [] [] seen c rest)) ∙ l)))
      | inl d ↦
          let run =
            round_stops (length text + 1) i n 0 none (seen ++ c ∷ rest)
              (stops_at [] [] seen c rest i n (omega arith) more ∙ d) in
          rw (e, d, run)
            (remove_from-laid text seen (c ∷ []) [] tail size (i + 1) n i 0 (omega arith)
              (omega arith) (omega arith) (omega arith) l)
    ]

NoneOf-without_cr : (text : Bytes) → NoneOf 0 text → NoneOf 0 (without_cr text)
NoneOf-without_cr [] z = tt
NoneOf-without_cr (c ∷ text) z = elim (Bool-cases (c == b'\r')) [
  | inl e ↦ rw e (NoneOf-without_cr text z.1)
  | inr e ↦ rw e (z.0, NoneOf-without_cr text z.1)
]

-- `av_sdp_create` has written a description without a 0 byte, with a 0 behind it, into a buffer.
-- The result has the size of the buffer, and read as a C string it is the description without its
-- carriage returns.
pub get_sdp-without_cr :
    (text tail : Bytes)
    → NoneOf 0 text
    → (b : Bytes) × (get_sdp (some (text ++ 0 ∷ tail)) ≡ ok b)
      × (c_str b ≡ without_cr text)
      × (length b ≡ length (text ++ 0 ∷ tail))
unfolding get_sdp
get_sdp-without_cr text tail z =
    elim (remove_from-start text [] tail (length (text ++ 0 ∷ tail)) 0 (length text) refl
      (omega arith) refl) [
        | holds tail' e l ↦ (
          remove_from (length text + 1) 0 (length text) none 0 (text ++ 0 ∷ tail),
          rw (c_str-append text tail z) refl,
          rw e (c_str-append (without_cr text) tail' (NoneOf-without_cr text z)),
          l,
        )
      ]
