-- ===== src/Rtsp/Request/Lines.antt =====
-- The search for the end of a line: three calls of `find` and the choice between their results,
-- against one walk over the text.
use mathlib.Core.Option
use rtp_server.Common.{
  ℕ, suc, ◌+◌, ◌≤◌, ◌≡◌, inl, inr, refl, ap, sym, ◌∙◌, Option, none, some, [], ◌∷◌, arith, ltb,
  ◌==◌, ==_iff, ==_comm, if◌then◌else◌, Bool-cases, length, length-drop, drop, Bytes, is_prefix,
  find, find_at,
}
use rtp_server.Rtsp.Request.{nearest, next_delimiter}

abbrev pub cr : ℕ
cr = b'\r'

abbrev pub lf : ℕ
lf = b'\n'

-- The size of the delimiter that begins with this carriage return.
abbrev pub after_cr : Bytes → ℕ
after_cr [] = 1
after_cr (c ∷ s) = if lf == c then 2 else 1

-- Where the first line ends, and the size of its delimiter: CRLF, or CR or LF by itself.
unfoldable pub first_break : Bytes → Option (ℕ × ℕ)
first_break [] = none
first_break (c ∷ s) =
    let later = Option.map (λ b. (suc b.0, b.1)) (first_break s) in
    if c == cr then some (0, after_cr s) else if c == lf then some (0, 1) else later

-- The delimiter as the parser counts it, from the start of the message.
abbrev pub placed : ℕ → ℕ → Option (ℕ × ℕ) → ℕ × ℕ
placed i end none = (end, 0)
placed i end (some (k, size)) = (i + k, size)

abbrev better : ℕ → Option ℕ → ℕ → ℕ × ℕ → ℕ × ℕ
better i none size best = best
better i (some k) size best = if ltb (i + k) best.0 then (i + k, size) else best

abbrev best_of : ℕ → ℕ → Option ℕ → Option ℕ → Option ℕ → ℕ × ℕ
best_of i end a b c = better i c 1 (better i b 1 (better i a 2 (end, 0)))

better-shift :
    (i size : ℕ) (k : Option ℕ) (best : ℕ × ℕ)
    → better i (Option.map suc k) size best ≡ better (suc i) k size best
better-shift i size none best = refl
better-shift i size (some k) best = ap (λ n. if ltb n best.0 then (n, size) else best) (omega arith)

best_of-shift :
    (i end : ℕ) (a b c : Option ℕ)
    → best_of i end (Option.map suc a) (Option.map suc b) (Option.map suc c)
      ≡ best_of (suc i) end a b c
best_of-shift i end a b c =
    better-shift i 1 c _
    ∙ ap (better (suc i) c 1)
        (better-shift i 1 b _ ∙ ap (better (suc i) b 1) (better-shift i 2 a (end, 0)))

placed-shift :
    (i end : ℕ) (b : Option (ℕ × ℕ))
    → placed i end (Option.map (λ (b : ℕ × ℕ). (suc b.0, b.1)) b) ≡ placed (suc i) end b
placed-shift i end none = refl
placed-shift i end (some (k, size)) = ap (λ n. (n, size)) (omega arith)

-- At the start of a delimiter the three results are compared with its place.
best_of-cr :
    (i : ℕ) (s : Bytes) (a c : Option ℕ)
    → best_of i
        (i + suc (length s))
        (if is_prefix (lf ∷ []) s then some 0 else Option.map suc a)
        (some 0)
        (Option.map suc c)
      ≡ (i + 0, after_cr s)
unfolding is_prefix
best_of-cr i [] a c = ground arith
best_of-cr i (x ∷ s) a c = ground arith

best_of-lf :
    (i n : ℕ) (a b : Option ℕ)
    → best_of i (i + suc n) (Option.map suc a) (Option.map suc b) (some 0) ≡ (i + 0, 1)
best_of-lf i n a b = ground arith

best_of-first_break :
    (i end : ℕ) (s : Bytes)
    → end ≡ i + length s
    → best_of i end (find (cr ∷ lf ∷ []) s) (find (cr ∷ []) s) (find (lf ∷ []) s)
      ≡ placed i end (first_break s)
unfolding find first_break
best_of-first_break i end [] e = refl
best_of-first_break i end (c ∷ s) e = elim (Bool-cases (c == cr)) [
  | inl is_cr ↦ rw ((==_iff c cr).0 is_cr, e) (best_of-cr i s _ _)
  | inr no_cr ↦ elim (Bool-cases (c == lf)) [
    | inl is_lf ↦ rw ((==_iff c lf).0 is_lf, e) (best_of-lf i (length s) _ _)
    | inr no_lf ↦
        rw (no_cr, no_lf, ==_comm cr c no_cr, ==_comm lf c no_lf)
          (best_of-shift i end (find (cr ∷ lf ∷ []) s) (find (cr ∷ []) s) (find (lf ∷ []) s)
            ∙ best_of-first_break (suc i) end s (omega arith)
            ∙ sym (placed-shift i end (first_break s)))
  ]
]

next_delimiter-best_of :
    (message : Bytes) (cursor : ℕ)
    → cursor ≤ length message
    → next_delimiter message cursor
      ≡ best_of cursor
          (length message)
          (find (cr ∷ lf ∷ []) (drop cursor message))
          (find (cr ∷ []) (drop cursor message))
          (find (lf ∷ []) (drop cursor message))
unfolding next_delimiter nearest find_at
next_delimiter-best_of message cursor h = ground arith

-- From every cursor in the message, the parser finds the first line break of the text that is left:
-- CRLF, or CR or LF by itself, whichever comes first; with none it reports size 0.
pub next_delimiter-first_break :
    (message : Bytes) (cursor : ℕ)
    → cursor ≤ length message
    → next_delimiter message cursor
      ≡ placed cursor (length message) (first_break (drop cursor message))
next_delimiter-first_break message cursor h =
    next_delimiter-best_of message cursor h
    ∙ best_of-first_break cursor (length message) (drop cursor message)
        (omega (arith, length-drop cursor message))
