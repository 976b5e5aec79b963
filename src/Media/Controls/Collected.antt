-- ===== src/Media/Controls/Collected.antt =====
-- The assignments that are made, as a pass over the lines of the description.
use rtp_server.Common.{
  ℕ, zero, suc, ◌+◌, ◌≤◌, ◌<◌, ◌≡◌, refl, ap, ◌∙◌, arith, true, false, Option, none, some, List, [],
  ◌∷◌, ◌++◌, ◌==◌, leb, if◌then◌else◌, length, length-append, take, drop, drop_inside, replicate,
  blit, Bytes, codes, bytes_eq, is_prefix, c_str-append, NoneOf, All, Bool-cases, Option-cases,
  all-NoneOf, length-drop, inl, inr, ◌⊎◌, append_assoc,
}
use rtp_server.Media.Controls.{
  MediaType, TypeMap, media_type_of, assign, break_line, getline, Reader, begins_with, read_line,
  has_text, read_lines, map_streams_to_control_ids,
}

-- A line that fits the buffer. One that names a medium is long enough to name it.
pub record IsLine (line : Bytes) : Type 0 where
  pub no_feed : NoneOf b'\n' line
  pub no_zero : NoneOf 0 line
  pub not_empty : 1 ≤ length line
  pub short : length line ≤ 63
  pub names_medium : is_prefix (codes "m=") line ≡ true → 7 ≤ length line

-- The lines, each with its line feed.
abbrev pub unlines : List Bytes → Bytes → Bytes
unlines [] rest = rest
unlines (l ∷ ls) rest = l ++ b'\n' ∷ unlines ls rest

-- The medium that is named last, and the assignments that are made, behind a line.
abbrev pub next_medium : Bytes → Bytes → Bytes
next_medium line medium = if is_prefix (codes "m=") line then take 5 (drop 2 line) else medium

abbrev pub with_control : Bytes → Option MediaType → TypeMap → TypeMap
with_control line none m = m
with_control line (some t) m = assign (drop 10 line) t m

abbrev pub next_map : Bytes → Bytes → TypeMap → TypeMap
next_map line medium m =
    if is_prefix (codes "m=") line
    then m
    else if is_prefix (codes "a=control:") line
    then with_control line (media_type_of medium) m
    else m

-- The assignments for the lines, each with the medium that is named last before it.
abbrev pub collect : Bytes → TypeMap → List Bytes → TypeMap
collect medium m [] = m
collect medium m (l ∷ ls) = collect (next_medium l medium) (next_map l medium m) ls

-- Where the loop ends: at the end of the text, at a 0 byte or an empty line, and at a line of more
-- than 63 bytes.
pub data IsEnd : Bytes → Type 0 where
  at_end : IsEnd []
  at_zero : (s : Bytes) → IsEnd (0 ∷ s)
  at_feed : (s : Bytes) → IsEnd (b'\n' ∷ s)
  at_long_line : (c : ℕ) (s : Bytes) → 63 < length (break_line (c ∷ s)).0 → IsEnd (c ∷ s)

-- A test on the buffer is one on the line in it.
begins_with-line :
    (prefix line stale : Bytes)
    → NoneOf 0 prefix
    → begins_with prefix (line ++ 0 ∷ stale) ≡ is_prefix prefix line
unfolding bytes_eq is_prefix
begins_with-line [] line stale z = refl
begins_with-line (p ∷ prefix) [] stale z = let e : (0 == p) ≡ false = ground arith in rw e refl
begins_with-line (p ∷ prefix) (c ∷ line) stale z =
    ground (arith, begins_with-line prefix line stale z.1)

length-is_prefix : (p s : Bytes) → is_prefix p s ≡ true → length p ≤ length s
unfolding is_prefix
length-is_prefix [] s h = omega arith
length-is_prefix (c ∷ p) [] h = absurd (ground arith)
length-is_prefix (c ∷ p) (x ∷ s) h = omega (arith, length-is_prefix p s (ground arith))

take_inside : (n : ℕ) (xs ys : Bytes) → n ≤ length xs → take n (xs ++ ys) ≡ take n xs
take_inside zero xs ys h = refl
take_inside (suc n) [] ys h = absurd (omega arith)
take_inside (suc n) (x ∷ xs) ys h = ap (◌∷◌ x) (take_inside n xs ys (omega arith))

NoneOf-drop : (n c : ℕ) (s : Bytes) → NoneOf c s → NoneOf c (drop n s)
NoneOf-drop zero c s h = h
NoneOf-drop (suc n) c [] h = tt
NoneOf-drop (suc n) c (x ∷ s) h = NoneOf-drop n c s h.1

break_line-append :
    (line rest : Bytes) → NoneOf b'\n' line → break_line (line ++ b'\n' ∷ rest) ≡ (line, rest)
break_line-append [] rest z = refl
break_line-append (c ∷ line) rest z =
    let e : (c == b'\n') ≡ false = ground arith in rw (e, break_line-append line rest z.1) refl

-- The medium and the map behind the body of the loop.
read_line-line :
    (line stale medium : Bytes) (m : TypeMap)
    → IsLine line
    → let r =
        read_line (record { buffer = line ++ 0 ∷ stale; media_type = medium; stream_types = m }) in
      r ≡ record {
        buffer = line ++ 0 ∷ stale;
        media_type = next_medium line medium;
        stream_types = next_map line medium m;
      }
unfolding read_line
read_line-line line stale medium m h =
    let e = begins_with-line (codes "m=") line stale (all-NoneOf 0 (codes "m=") refl) in
    let f =
      begins_with-line (codes "a=control:") line stale (all-NoneOf 0 (codes "a=control:") refl) in
    elim (Bool-cases (is_prefix (codes "m=") line)) [
      | inl y ↦
          rw (e, y)
            (let long = h.names_medium y in
              let d = drop_inside 2 line (0 ∷ stale) (omega arith) in
              let k = take_inside 5 (drop 2 line) (0 ∷ stale) (omega (arith, length-drop 2 line)) in
              rw (d, k) refl)
      | inr n ↦ elim (Bool-cases (is_prefix (codes "a=control:") line)) [
        | inl y ↦
            let d =
              drop_inside 10 line (0 ∷ stale) (length-is_prefix (codes "a=control:") line y) in
            let k = c_str-append (drop 10 line) stale (NoneOf-drop 10 0 line h.no_zero) in
            elim (Option-cases (media_type_of medium)) [
              | inl o ↦ rw (e, n, f, y, o) refl
              | inr (t, o) ↦ rw (e, n, f, y, o, d, k) refl
            ]
        | inr n' ↦ rw (e, n, f, n') refl
      ]
    ]

getline-line :
    (line rest : Bytes) → IsLine line → getline (line ++ b'\n' ∷ rest) ≡ some (line, rest)
unfolding getline
getline-line [] rest h = absurd (omega (arith, h.not_empty))
getline-line (c ∷ line) rest h =
    let e = break_line-append (c ∷ line) rest h.no_feed in
    let s : leb (length (c ∷ line)) 63 ≡ true = ground (arith, h.short) in rw (getline, e, s) refl

has_text-line : (line stale : Bytes) → IsLine line → has_text (line ++ 0 ∷ stale) ≡ true
has_text-line [] stale h = absurd (omega (arith, h.not_empty))
has_text-line (c ∷ line) stale h = ground (arith, h.no_zero)

-- The buffer of a round, with the line `line` in it.
abbrev with_line : Bytes → Reader → Reader
with_line line r = record r { buffer = blit 0 (line ++ 0 ∷ []) r.buffer }

round_goes_on :
    (rounds : ℕ) (s line rest : Bytes) (r : Reader)
    → getline s ≡ some (line, rest)
    → has_text (with_line line r).buffer ≡ true
    → read_lines (suc rounds) s r ≡ read_lines rounds rest (read_line (with_line line r))
unfolding read_lines
round_goes_on rounds s line rest r g h = rw (read_lines, g, h) refl

round_ends :
    (rounds : ℕ) (s : Bytes) (r : Reader)
    → (getline s ≡ none)
      ⊎ ((line : Bytes) × (rest : Bytes) × (getline s ≡ some (line, rest))
          × (has_text (with_line line r).buffer ≡ false))
    → (read_lines (suc rounds) s r).stream_types ≡ r.stream_types
unfolding read_lines
round_ends rounds s r (inl g) = rw (read_lines, g) refl
round_ends rounds s r (inr (line, rest, g, h)) = rw (read_lines, g, h) refl

-- The loop stops at once.
read_lines-IsEnd :
    (rounds : ℕ) (s : Bytes) (r : Reader)
    → IsEnd s
    → (read_lines rounds s r).stream_types ≡ r.stream_types
unfolding read_lines getline blit
read_lines-IsEnd zero s r e = refl
read_lines-IsEnd (suc rounds) s r at_end = round_ends rounds [] r (inl refl)
read_lines-IsEnd (suc rounds) s r (at_long_line c t l) =
    let far : leb (length (break_line (c ∷ t)).0) 63 ≡ false = ground arith in
    round_ends rounds (c ∷ t) r (inl (rw (getline, far) refl))
read_lines-IsEnd (suc rounds) s r (at_zero t) =
    let (line, rest) = break_line (0 ∷ t) in
    elim (Bool-cases (leb (length line) 63)) [
      | inl e ↦ round_ends rounds (0 ∷ t) r (inr (line, rest, rw (getline, e) refl, refl))
      | inr e ↦ round_ends rounds (0 ∷ t) r (inl (rw (getline, e) refl))
    ]
read_lines-IsEnd (suc rounds) s r (at_feed t) =
    round_ends rounds (b'\n' ∷ t) r (inr ([], t, refl, refl))

read_lines-collect :
    (ls : List Bytes) (rest : Bytes) (rounds : ℕ) (r : Reader)
    → All IsLine ls
    → IsEnd rest
    → length (unlines ls rest) < rounds
    → (read_lines rounds (unlines ls rest) r).stream_types ≡ collect r.media_type r.stream_types ls
unfolding blit
read_lines-collect [] rest rounds r h e f = read_lines-IsEnd rounds rest r e
read_lines-collect (l ∷ ls) rest zero r h e f = absurd (omega arith)
read_lines-collect (l ∷ ls) rest (suc rounds) r h e f =
    let stale : Bytes = drop (0 + length (l ++ 0 ∷ [])) r.buffer in
    let same : (with_line l r).buffer ≡ l ++ 0 ∷ stale = append_assoc l (0 ∷ []) stale in
    let go =
      round_goes_on rounds (unlines (l ∷ ls) rest) l (unlines ls rest) r
        (getline-line l (unlines ls rest) h.0) (ap has_text same ∙ has_text-line l stale h.0) in
    let took =
      ap (λ b. read_line (record r { buffer = b })) same
      ∙ read_line-line l stale r.media_type r.stream_types h.0 in
    ap (λ q. q.stream_types) (go ∙ ap (read_lines rounds (unlines ls rest)) took)
    ∙ read_lines-collect ls rest rounds
        (record {
          buffer = l ++ 0 ∷ stale;
          media_type = next_medium l r.media_type;
          stream_types = next_map l r.media_type r.stream_types;
        })
        h.1 e (omega (arith, length-append l (b'\n' ∷ unlines ls rest)))

-- The description begins with lines of 1 to 63 bytes (at least 7 for one that names a medium) and
-- without 0 bytes. What follows them is the end, a 0 byte, an empty line, or a line of more than 63
-- bytes. The assignments that are made to the map are then those of the control ids of these lines, in
-- their order, each with the text of the control id at the call and the medium that is named last
-- before it; whatever follows, behind a long line too, adds none.
pub map_streams_to_control_ids-collect :
    (ls : List Bytes) (rest : Bytes) (m : TypeMap)
    → All IsLine ls
    → IsEnd rest
    → map_streams_to_control_ids (unlines ls rest) m ≡ collect [] m ls
unfolding map_streams_to_control_ids
map_streams_to_control_ids-collect ls rest m h e =
    read_lines-collect ls rest (length (unlines ls rest) + 1)
      (record { buffer = replicate 64 0; media_type = []; stream_types = m }) h e (omega arith)
