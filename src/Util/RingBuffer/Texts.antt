-- ===== src/Util/RingBuffer/Texts.antt =====
-- What is read back from the buffer.
use rtp_server.Common.{
  ℕ, ◌+◌, ◌-◌, ◌≤◌, ◌<◌, ◌≡◌, refl, sym, ap, ◌∙◌, arith, false, List, [], ◌∷◌, ◌++◌, ◌==◌, min,
  length, length-append, length-take, take, drop, drop-drop, take_all, take_at, drop_at, take-drop,
  append_assoc, length-blit, blit, Bytes, c_str, c_str-append, NoneOf,
}
use rtp_server.Util.RingBuffer.{
  RingBuffer, get_write_dest, store, write_as_c_str, total_size, copy_parts, write_parts,
}

blit_nil : (at : ℕ) (m : Bytes) → blit at [] m ≡ m
unfolding blit
blit_nil at m = let e : at + 0 ≡ at = omega arith in rw e (take-drop at m)

-- One store behind another is one store of both texts.
blit-blit :
    (at : ℕ) (xs ys m : Bytes)
    → at ≤ length m
    → blit (at + length xs) ys (blit at xs m) ≡ blit at (xs ++ ys) m
unfolding blit
blit-blit at xs ys m h =
    let front : Bytes = take at m in
    let back : Bytes = drop (at + length xs) m in
    let n : length front ≡ at = omega (arith, length-take at m) in
    let whole : front ++ (xs ++ back) ≡ (front ++ xs) ++ back = sym (append_assoc front xs back) in
    let len : length (front ++ xs) ≡ at + length xs = omega (arith, length-append front xs, n) in
    let e1 : take (at + length xs) (front ++ (xs ++ back)) ≡ front ++ xs =
      rw whole (take_at (at + length xs) (front ++ xs) back len) in
    let e2 : drop (at + length xs) (front ++ (xs ++ back)) ≡ back =
      rw whole (drop_at (at + length xs) (front ++ xs) back len) in
    let e3 : drop (at + length xs + length ys) (front ++ (xs ++ back))
        ≡ drop (at + length xs + length ys) m =
      sym (drop-drop (length ys) (at + length xs) (front ++ (xs ++ back)))
      ∙ (ap (drop (length ys)) e2 ∙ drop-drop (length ys) (at + length xs) m) in
    let e4 : at + length (xs ++ ys) ≡ at + length xs + length ys =
      omega (arith, length-append xs ys) in
    rw (e1, e3, e4) (simp append_assoc)

-- The text at the start of a store.
drop-blit :
    (at : ℕ) (xs m : Bytes) → at ≤ length m → drop at (blit at xs m) ≡ xs ++ drop (at + length xs) m
unfolding blit
drop-blit at xs m h =
    drop_at at (take at m) (xs ++ drop (at + length xs) m) (omega (arith, length-take at m))

-- The pieces one behind the other.
abbrev pub joined : List Bytes → Bytes
joined [] = []
joined (p ∷ ps) = p ++ joined ps

pub length-joined : (ps : List Bytes) → length (joined ps) ≡ total_size ps
length-joined [] = refl
length-joined (p ∷ ps) = omega (arith, length-append p (joined ps), length-joined ps)

copy_parts-joined :
    (limit at : ℕ) (ps : List Bytes) (r : RingBuffer)
    → total_size ps < limit
    → at + total_size ps ≤ length r.memory
    → copy_parts limit at ps r ≡ store at (joined ps) r
unfolding copy_parts
copy_parts-joined limit at [] r h l = ap (λ m. record r { memory = m }) (sym (blit_nil at r.memory))
copy_parts-joined limit at (p ∷ ps) r h l =
    let e : min (length p) limit ≡ length p = omega arith in
    let live : (limit == 0) ≡ false = ground arith in
    let fits : at + length p ≤ length r.memory = omega arith in
    let l' : at + length p + total_size ps ≤ length (blit at p r.memory) =
      omega (arith, length-blit at p r.memory fits) in
    rw (live, e, take_all p)
      (copy_parts-joined (limit - length p) (at + length p) ps (store at p r) (omega arith) l'
        ∙ ap (λ m. record r { memory = m }) (blit-blit at p (joined ps) r.memory (omega arith)))

-- What both forms of `write_as_c_str` leave: the text at the offset, with a 0 behind it.
stored :
    (at : ℕ) (text m : Bytes)
    → at + length text < length m
    → blit (at + length text) (0 ∷ []) (blit at text m) ≡ blit at (text ++ 0 ∷ []) m
stored at text m h = blit-blit at text (0 ∷ []) m (omega arith)

pub c_str-stored :
    (at : ℕ) (text m : Bytes)
    → NoneOf 0 text
    → at ≤ length m
    → c_str (drop at (blit at (text ++ 0 ∷ []) m)) ≡ text
c_str-stored at text m none h =
    rw (drop-blit at (text ++ 0 ∷ []) m h, append_assoc text (0 ∷ [])) (c_str-append text _ none)

module _ (r : RingBuffer) (held : r.n ≤ length r.memory) (inside : r.i ≤ r.n) where
  -- A text that fits lies inside the buffer.
  pub dest_fits : (size : ℕ) → size ≤ r.n → get_write_dest size r + size ≤ length r.memory
  unfolding get_write_dest
  dest_fits size h = ground arith

  pub write_as_c_str_lem :
      (text : Bytes)
      → length text < r.n
      → let dest = get_write_dest (length text + 1) r in
        write_as_c_str text r ≡ (dest, store dest (text ++ 0 ∷ []) r)
  unfolding write_as_c_str
  write_as_c_str_lem text h =
      let dest = get_write_dest (length text + 1) r in
      let f = dest_fits (length text + 1) (omega arith) in
      let e : min (length text) r.n ≡ length text = omega arith in
      rw (write_as_c_str, e, take_all text, stored dest text r.memory (omega arith)) refl

  -- The pieces are stored as their concatenation.
  pub write_parts-joined :
      (parts : List Bytes)
      → total_size parts < r.n
      → write_parts parts r ≡ write_as_c_str (joined parts) r
  unfolding write_parts
  write_parts-joined parts h =
      let size = length-joined parts in
      let dest = get_write_dest (total_size parts + 1) r in
      let f = dest_fits (total_size parts + 1) (omega arith) in
      rw
        (
          write_as_c_str_lem (joined parts) (omega (arith, size)),
          write_parts,
          copy_parts-joined r.n dest parts r h (omega arith),
          ← size,
        )
        (rw
          (stored (get_write_dest (length (joined parts) + 1) r) (joined parts) r.memory
            (omega (arith, size, dest_fits (length (joined parts) + 1) (omega (arith, size)))))
          refl)
