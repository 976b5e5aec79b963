-- ===== src/Rtsp/Request/Loop.antt =====
-- The `while (1)` loop of `RTSPRequest::parse_request`: that it ends, and the lines that it finds.
use rtp_server.Common.{
  ℕ, zero, suc, ◌+◌, ◌≤◌, ◌<◌, ◌≡◌, ◌≢◌, ◌⊎◌, inl, inr, refl, ap, sym, ◌∙◌, none, some, List, [],
  ◌∷◌, ◌++◌, append_assoc, arith, ==_ne, Option-cases, length, length-append, length-drop, drop,
  drop-append, Bytes, All, slice, slice-append,
}
use rtp_server.Rtsp.Request.{next_delimiter, Scan, scan}
use rtp_server.Rtsp.Request.Lines.{cr, lf, after_cr, first_break, next_delimiter-first_break}

-- A text inside one line.
abbrev pub NoBreak : Bytes → Type 0
NoBreak = All (λ c. (c ≢ cr) × (c ≢ lf))

pub data Eol : Type 0 where
  crlf just_cr just_lf : Eol

abbrev pub eol_bytes : Eol → Bytes
eol_bytes crlf = cr ∷ lf ∷ []
eol_bytes just_cr = cr ∷ []
eol_bytes just_lf = lf ∷ []

-- A carriage return is a delimiter by itself only if no line feed follows.
abbrev pub CanFollow : Eol → Bytes → Type 0
CanFollow just_cr rest = after_cr rest ≡ 1
CanFollow _ rest = Unit {0}

pub first_break-eol :
    (e : Eol) (rest : Bytes)
    → CanFollow e rest
    → first_break (eol_bytes e ++ rest) ≡ some (0, length (eol_bytes e))
unfolding first_break
first_break-eol crlf rest h = refl
first_break-eol just_cr rest h = rw h
first_break-eol just_lf rest h = refl

pub first_break-NoBreak :
    (e : Eol) (line rest : Bytes)
    → NoBreak line
    → CanFollow e rest
    → first_break (line ++ (eol_bytes e ++ rest)) ≡ some (length line, length (eol_bytes e))
unfolding first_break
first_break-NoBreak e [] rest n h = first_break-eol e rest h
first_break-NoBreak e (c ∷ line) rest n h =
    rw (==_ne c cr n.0.0, ==_ne c lf n.0.1, first_break-NoBreak e line rest n.1 h)

pub first_break-none : (line : Bytes) → NoBreak line → first_break line ≡ none
unfolding first_break
first_break-none [] n = refl
first_break-none (c ∷ line) n = rw (==_ne c cr n.0.0, ==_ne c lf n.0.1, first_break-none line n.1)

after_cr_bounds : (s : Bytes) → (1 ≤ after_cr s) × (after_cr s ≤ suc (length s))
after_cr_bounds [] = omega arith
after_cr_bounds (c ∷ s) = ground arith

-- A line break lies inside the text, and its delimiter is not empty.
first_break_bounds :
    (s : Bytes) {k size : ℕ} → first_break s ≡ some (k, size) → (k + size ≤ length s) × (1 ≤ size)
unfolding first_break
first_break_bounds [] h = ground arith
first_break_bounds (c ∷ s) {k = zero} h = ground (arith, after_cr_bounds s)
first_break_bounds (c ∷ s) {k = suc k} {size} h =
    ground (arith, first_break_bounds s {k = k} {size = size})

next_delimiter_bounds :
    (message : Bytes) (cursor : ℕ)
    → cursor ≤ length message
    → let (part_end, size) = next_delimiter message cursor in
      (size ≡ 0) ⊎ ((cursor ≤ part_end) × (part_end + size ≤ length message) × (1 ≤ size))
next_delimiter_bounds message cursor h =
    rw (next_delimiter-first_break message cursor h)
      (elim (Option-cases (first_break (drop cursor message))) [
        | inl e ↦ rw e (inl refl)
        | inr ((k, size), e) ↦ rw e (
            inr (
              omega arith,
              omega (arith, first_break_bounds (drop cursor message) e, length-drop cursor message),
              omega (arith, first_break_bounds (drop cursor message) e),
            ))
      ])

-- The loop was left by one of its two `break`s: no delimiter is left, or an empty line begins
-- at the cursor.
abbrev pub LeftByBreak : Bytes → Scan → Type 0
LeftByBreak message s =
    let (part_end, size) = next_delimiter message s.cursor in
    ((size ≡ 0) × (s.header_end ≡ 0))
    ⊎ ((1 ≤ size) × (part_end ≡ s.cursor) × (s.header_end ≡ part_end + size))

-- From every cursor in the message, enough rounds leave the loop by one of its two `break`s, never
-- for want of rounds: either no line end is left, or an empty line begins at the cursor.
pub scan-LeftByBreak :
    (f : ℕ) (message : Bytes) (cursor : ℕ)
    → cursor ≤ length message
    → length message < f + cursor
    → LeftByBreak message (scan f message cursor)
unfolding scan
scan-LeftByBreak zero message cursor h l = absurd (omega arith)
scan-LeftByBreak (suc f) message cursor h l =
    let (part_end, size) = next_delimiter message cursor in
    ground
      (arith, next_delimiter_bounds message cursor h, scan-LeftByBreak f message (part_end + size))

abbrev pub cons_part : Bytes → Scan → Scan
cons_part line s = record s { parts = line ∷ s.parts }

pub eol_pos : (e : Eol) → 0 < length (eol_bytes e)
eol_pos crlf = omega arith
eol_pos just_cr = omega arith
eol_pos just_lf = omega arith

pub length_pos : (s : Bytes) → s ≢ [] → 0 < length s
length_pos [] h = absurd (h refl)
length_pos (c ∷ s) h = omega arith

module _ (f : ℕ) (e : Eol) (message pre : Bytes) where
  drop_pre : {rest : Bytes} → message ≡ pre ++ rest → drop (length pre) message ≡ rest
  drop_pre {rest} m = rw m (drop-append pre rest)

  pre-le : (rest : Bytes) → message ≡ pre ++ rest → length pre ≤ length message
  pre-le rest m = omega (arith, ap length m, length-append pre rest)

  -- At a full line, the loop takes it and goes on behind its delimiter.
  pub scan_line :
      (line rest : Bytes)
      → message ≡ pre ++ (line ++ (eol_bytes e ++ rest))
      → NoBreak line
      → line ≢ []
      → CanFollow e rest
      → scan (suc f) message (length pre)
        ≡ cons_part line (scan f message (length pre + length line + length (eol_bytes e)))
  unfolding scan
  scan_line line rest m n ne c =
      rw
        (
          scan,
          next_delimiter-first_break message (length pre) (pre-le _ m),
          drop_pre m,
          first_break-NoBreak e line rest n c,
        )
        (ground (arith, eol_pos e, length_pos line ne, slice_pre))
    where
      slice_pre : slice (length pre) (length pre + length line) message ≡ line
      slice_pre = rw m (slice-append pre line (eol_bytes e ++ rest))

  -- At an empty line, the loop ends.
  pub scan_empty_line :
      (rest : Bytes)
      → message ≡ pre ++ (eol_bytes e ++ rest)
      → CanFollow e rest
      → scan (suc f) message (length pre)
        ≡ record { parts = []; cursor = length pre; header_end = length pre + length (eol_bytes e) }
  unfolding scan
  scan_empty_line rest m c =
      rw
        (
          scan,
          next_delimiter-first_break message (length pre) (pre-le _ m),
          drop_pre m,
          first_break-eol e rest c,
        )
        (ground (arith, eol_pos e))

-- Lines, each with the delimiter `e` behind it, and then `rest`.
abbrev pub unlines : Eol → List Bytes → Bytes → Bytes
unlines e [] rest = rest
unlines e (l ∷ ls) rest = l ++ (eol_bytes e ++ unlines e ls rest)

abbrev pub IsLine : Eol → Bytes → Type 0
IsLine e l = NoBreak l × (l ≢ [])

first_of_line : (e : Eol) (l rest : Bytes) → IsLine e l → CanFollow e (l ++ rest)
first_of_line crlf l rest h = tt
first_of_line just_lf l rest h = tt
first_of_line just_cr [] rest h = absurd (h.1 refl)
first_of_line just_cr (c ∷ l) rest h = rw (==_ne lf c (λ e. h.0.0.1 (sym e)))

unlines-CanFollow :
    (e : Eol) (ls : List Bytes) (rest : Bytes)
    → All (IsLine e) ls
    → CanFollow e rest
    → CanFollow e (unlines e ls (eol_bytes e ++ rest))
unlines-CanFollow crlf ls rest h c = tt
unlines-CanFollow just_lf ls rest h c = tt
unlines-CanFollow just_cr [] rest h c = refl
unlines-CanFollow just_cr (l ∷ ls) rest h c = first_of_line just_cr l _ h.0

pub found_eq :
    (ls : List Bytes) {a b c d : ℕ}
    → a ≡ b
    → c ≡ d
    → ◌≡◌ {A = Scan}
        (record { parts = ls; cursor = a; header_end = c })
        (record { parts = ls; cursor = b; header_end = d })
found_eq ls p q = λ i. record { parts = ls; cursor = p i; header_end = q i }

-- On lines that an empty line ends, the loop takes exactly those lines, and leaves the cursor at
-- the empty line.
pub scan-unlines :
    (f : ℕ) (e : Eol) (message pre : Bytes) (ls : List Bytes) (rest : Bytes)
    → message ≡ pre ++ unlines e ls (eol_bytes e ++ rest)
    → All (IsLine e) ls
    → CanFollow e rest
    → length ls < f
    → scan f message (length pre) ≡ record {
      parts = ls;
      cursor = length pre + length (unlines e ls []);
      header_end = length pre + length (unlines e ls (eol_bytes e));
    }
scan-unlines zero e message pre ls rest m h c l = absurd (omega arith)
scan-unlines (suc f) e message pre [] rest m h c l =
    scan_empty_line f e message pre rest m c ∙ found_eq [] (omega arith) refl
scan-unlines (suc f) e message pre (x ∷ ls) rest m h c l =
    scan_line f e message pre x (unlines e ls (eol_bytes e ++ rest)) m h.0.0 h.0.1
      (unlines-CanFollow e ls rest h.1 c)
    ∙ ap (cons_part x) (
        ap (scan f message) at_next
        ∙ scan-unlines f e message (pre ++ (x ++ eol_bytes e)) ls rest (m ∙ regroup) h.1 c
            (omega arith))
    ∙ found_eq (x ∷ ls) (lengths []) (lengths (eol_bytes e))
  where
    at_next : length pre + length x + length (eol_bytes e) ≡ length (pre ++ (x ++ eol_bytes e))
    at_next = omega (arith, length-append pre (x ++ eol_bytes e), length-append x (eol_bytes e))

    regroup :
        pre ++ (x ++ (eol_bytes e ++ unlines e ls (eol_bytes e ++ rest)))
        ≡ (pre ++ (x ++ eol_bytes e)) ++ unlines e ls (eol_bytes e ++ rest)
    regroup = simp append_assoc

    lengths :
        (tail : Bytes)
        → length (pre ++ (x ++ eol_bytes e)) + length (unlines e ls tail)
          ≡ length pre + length (x ++ (eol_bytes e ++ unlines e ls tail))
    lengths tail = omega (
      arith,
      at_next,
      length-append x (eol_bytes e ++ unlines e ls tail),
      length-append (eol_bytes e) (unlines e ls tail),
    )
