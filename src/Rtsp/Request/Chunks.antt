-- ===== src/Rtsp/Request/Chunks.antt =====
-- A request that arrives in more than one read: `Connection::append_to_message` calls
-- `parse_request` again with the longer message.
use rtp_server.Common.{
  ℕ, suc, ◌+◌, ◌^◌, ◌≤◌, ◌<◌, ◌≡◌, ◌≢◌, inl, inr, refl, ap, sym, ◌∙◌, subst, false, none, some, [],
  ◌∷◌, ◌++◌, append_assoc, arith, ==_ne, le-leb, Option-cases, length, length-append, drop,
  drop-append, Bytes, NoneOf, codes, slice, slice-append, find_at, find_char_free,
}
use rtp_server.Exception.{done, threw, bad_request_line}
use rtp_server.Util.Decimal.{from_chars}
use rtp_server.Rtsp.Request.{
  Request, Scan, scan, ready, initial, parse_complete, apply_parts, finish, assign_body,
  parse_request, set_request_line_parts, set_url, next_delimiter,
}
use rtp_server.Rtsp.Headers.{lookup}
use rtp_server.Rtsp.Request.Lines.{lf, next_delimiter-first_break, placed}
use rtp_server.Rtsp.Request.Loop.{
  Eol, eol_bytes, CanFollow, NoBreak, scan_line, cons_part, length_pos, first_break-none,
}
use rtp_server.Rtsp.Request.Line.{header_line, sp, find_at-append}
use rtp_server.Rtsp.Request.RoundTrip.{
  IsWellFormed, header_line-ne, head_of, request_lines, unlines-append, with_tail,
  parse_request-with_tail,
}

-- Where the cursor lies in the message and no line end follows it, a call changes nothing.
pub parse_request-NoBreak :
    (message : Bytes) (r : Request)
    → r.cursor ≤ length message
    → NoBreak (drop r.cursor message)
    → parse_request message r ≡ done r
unfolding parse_request scan apply_parts
parse_request-NoBreak message r h n = ground (arith, no_delimiter, add_one)
  where
    add_one : length message + 1 ≡ suc (length message)
    add_one = omega arith

    no_delimiter : next_delimiter message r.cursor ≡ (length message, 0)
    no_delimiter =
        next_delimiter-first_break message r.cursor h
        ∙ ap (placed r.cursor (length message)) (first_break-none _ n)

NoBreak-CanFollow : (e : Eol) (s : Bytes) → NoBreak s → CanFollow e s
NoBreak-CanFollow Eol.crlf s n = tt
NoBreak-CanFollow Eol.just_lf s n = tt
NoBreak-CanFollow Eol.just_cr [] n = refl
NoBreak-CanFollow Eol.just_cr (c ∷ s) n = rw (==_ne lf c (λ e. n.0.1 (sym e)))

NoBreak-prefix : (a b : Bytes) → NoBreak (a ++ b) → NoBreak a
NoBreak-prefix [] b n = tt
NoBreak-prefix (c ∷ a) b n = (n.0, NoBreak-prefix a b n.1)

-- The request as it stands when the head is read and the body is not whole.
abbrev pub waiting : Eol → Request → Bytes → Request
waiting e r addr = record r { body = []; cursor = length (head_of e r); client_addr = addr }

assign_body_short :
    (message : Bytes) (header_end n : ℕ) (q : Request)
    → length message < header_end + n
    → header_end + n < 2 ^ 64
    → assign_body message header_end n q ≡ done (record q { cursor = header_end })
unfolding assign_body
assign_body_short message header_end n q h l = ground arith

right_nil : (a b : Bytes) → a ++ b ≡ [] → b ≡ []
right_nil [] b h = h
right_nil (c ∷ a) b h = absurd (ground arith)

module _ (e : Eol) (r : Request) (b₁ b₂ addr : Bytes) (w : IsWellFormed r) where
  length-with_tail :
      (tail : Bytes) → length (with_tail e r tail) ≡ length (head_of e r) + length tail
  length-with_tail tail =
      ap length (unlines-append e (request_lines r) (eol_bytes e) tail)
      ∙ length-append (head_of e r) tail

  short-lt : r.body ≡ b₁ ++ b₂ → b₂ ≢ [] → length b₁ < length r.body
  short-lt split more = omega (arith, ap length split, length-append b₁ b₂, length_pos b₂ more)

  finish_short :
      (n : ℕ)
      → r.body ≡ b₁ ++ b₂
      → b₂ ≢ []
      → length (head_of e r) + length r.body < 2 ^ 64
      → finish
          (with_tail e r b₁)
          (length (head_of e r))
          (record r { body = []; cursor = n; client_addr = addr })
        ≡ done (waiting e r addr)
  unfolding finish
  finish_short n split more l = elim (Option-cases (lookup (codes "content-length") r.headers)) [
    | inl e' ↦
        let none_left : r.body ≡ [] = rw e' at w.body_fits in
        absurd (more (right_nil b₁ b₂ (sym split ∙ none_left)))
    | inr (v, e') ↦
        let size : from_chars (2 ^ 64) v ≡ some (length r.body) = rw e' at w.body_fits in
        rw (finish, e', size)
          (assign_body_short (with_tail e r b₁) (length (head_of e r)) (length r.body) _
            (omega (arith, length-with_tail b₁, short-lt split more)) l)
  ]

  body_behind_head : drop (length (head_of e r)) (with_tail e r r.body) ≡ r.body
  body_behind_head =
      rw (unlines-append e (request_lines r) (eol_bytes e) r.body)
        (drop-append (head_of e r) r.body)

  parse_request_whole_body :
      NoBreak r.body
      → parse_request (with_tail e r r.body) (waiting e r addr) ≡ done (waiting e r addr)
  parse_request_whole_body n =
      parse_request-NoBreak (with_tail e r r.body) (waiting e r addr)
        (omega (arith, length-with_tail r.body)) (subst NoBreak (sym body_behind_head) n)

-- For a well-formed request with a body that holds no line end, and lengths below 2 ^ 64: a first
-- read that ends inside the body leaves the request waiting with an empty body, a second one with
-- the whole body leaves it exactly so, and it is not ready.
pub parse_request-body_in_two_reads :
    (e : Eol) (r : Request) (b₁ b₂ addr : Bytes)
    → IsWellFormed r
    → r.body ≡ b₁ ++ b₂
    → b₂ ≢ []
    → NoBreak r.body
    → length (head_of e r) + length r.body < 2 ^ 64
    → (parse_request (with_tail e r b₁) (record initial { client_addr = addr })
        ≡ done (waiting e r addr))
      × (parse_request (with_tail e r r.body) (waiting e r addr) ≡ done (waiting e r addr))
      × (ready (waiting e r addr) ≡ false)
unfolding ready
parse_request-body_in_two_reads e r b₁ b₂ addr w split more n l = (
  parse_request-with_tail e r b₁ w
        (NoBreak-CanFollow e b₁ (NoBreak-prefix b₁ b₂ (subst NoBreak split n))) addr
      ∙ finish_short e r b₁ b₂ addr w _ split more l,
  parse_request_whole_body e r b₁ b₂ addr w n,
  ==_ne (length (head_of e r)) parse_complete (omega (arith, short-lt e r b₁ b₂ addr w split more)),
)

find_at_missing :
    (line pre s : Bytes)
    → line ≡ pre ++ s
    → NoneOf sp s
    → find_at (sp ∷ []) line (length pre) ≡ none
unfolding find_at
find_at_missing line pre s e n =
    let h : length pre ≤ length line = omega (arith, ap length e, length-append pre s) in
    rw (le-leb h, e, drop-append pre s, find_char_free sp s n)

NoneOf-colon : (k : Bytes) → NoneOf sp k → NoneOf sp (k ++ codes ":")
NoneOf-colon [] n = ((λ e. ground arith), tt)
NoneOf-colon (c ∷ k) n = (n.0, NoneOf-colon k n.1)

module _ (k v : Bytes) where
  -- A header with no space in its name and its value is no request line.
  header_line_throws :
      (q : Request)
      → NoneOf sp k
      → NoneOf sp v
      → set_request_line_parts (header_line (k, v)) q
        ≡ threw bad_request_line (record q { method = k ++ codes ":" })
  unfolding set_request_line_parts set_url
  header_line_throws q nk nv = rw (
    set_request_line_parts,
    find_at-append (header_line (k, v)) [] (k ++ codes ":") v as_word (NoneOf-colon k nk),
    index,
    set_url,
    find_at_missing (header_line (k, v)) ((k ++ codes ":") ++ sp ∷ []) v (simp append_assoc) nv,
    slice_word,
  )
    where
      as_word : header_line (k, v) ≡ (k ++ codes ":") ++ sp ∷ v
      as_word = simp append_assoc

      slice_word :
          slice 0 (length {A = ℕ} [] + length (k ++ codes ":")) (header_line (k, v))
          ≡ k ++ codes ":"
      slice_word = rw as_word (slice-append [] (k ++ codes ":") (sp ∷ v))

      index : length {A = ℕ} [] + length (k ++ codes ":") + 1 ≡ length ((k ++ codes ":") ++ sp ∷ [])
      index = omega (arith, length-append (k ++ codes ":") (sp ∷ []))

-- On a request that is not ready and has its cursor behind `pre`, a message that goes on with a
-- full line `k: v`, without spaces in `k` and `v`, makes the call throw for a bad request line, and
-- the method is then `k:`.
pub parse_request-header_in_second_read :
    (e : Eol) (r : Request) (pre k v rest : Bytes)
    → ready r ≡ false
    → r.cursor ≡ length pre
    → NoBreak (header_line (k, v))
    → NoneOf sp k
    → NoneOf sp v
    → CanFollow e rest
    → (q : Request) × (parse_request (pre ++ (header_line (k, v) ++ (eol_bytes e ++ rest))) r
        ≡ threw bad_request_line q)
      × (q.method ≡ k ++ codes ":")
unfolding parse_request apply_parts
parse_request-header_in_second_read e r pre k v rest waits at n nk nv c = (
  record r { cursor = found.cursor; method = k ++ codes ":" },
  rw (parse_request, waits, scanned, apply_parts, header_line_throws k v _ nk nv),
  refl,
)
  where
    message : Bytes
    message = pre ++ (header_line (k, v) ++ (eol_bytes e ++ rest))

    found : Scan
    found =
        scan (length message) message
          (length pre + length (header_line (k, v)) + length (eol_bytes e))

    scanned : scan (length message + 1) message r.cursor ≡ cons_part (header_line (k, v)) found
    scanned =
        ap (λ f. scan f message r.cursor) (omega arith)
        ∙ ap (scan (suc (length message)) message) at
        ∙ scan_line (length message) e message pre (header_line (k, v)) rest refl n
            (header_line-ne (k, v)) c
