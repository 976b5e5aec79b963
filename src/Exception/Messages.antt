-- ===== src/Exception/Messages.antt =====
-- The texts of exceptions: `Exception` of src/Server/Exception.h and src/Server/Exception.cpp. All
-- exceptions share one buffer, and each holds an address in it.
mod Tests
use rtp_server.Common.{
  ℕ, ◌+◌, ◌≤◌, ◌<◌, ◌≡◌, refl, ap, ◌∙◌, zero, suc, min, take, blit, length-take, arith, List, [],
  ◌∷◌, ◌++◌, length, length-append, length-blit, drop, Bytes, c_str, NoneOf, All, replicate,
  get_elem?, some, append_assoc, append-nil,
}
use rtp_server.Util.RingBuffer.{RingBuffer, get_write_dest, store, write_as_c_str, write_parts}
use rtp_server.Util.RingBuffer.Texts.{
  write_as_c_str_lem, write_parts-joined, c_str-stored, dest_fits,
}

-- The five constructors, by what they are given: a text that ends at its first 0, a text with its
-- length, either of them behind a prefix, and a format with what `snprintf` makes of it.
pub data Message : Type 0 where
  plain view formatted : Bytes → Message
  prefixed prefixed_view : Bytes → Bytes → Message

-- `static inline RingBuffer buffer{4096}`, in front of other memory.
abbrev pub buffer : Bytes → RingBuffer
buffer heap = record { memory = replicate 4096 0 ++ heap; i = 0; n = 4096 }

-- `RingBuffer::write` of a format: `sprintf` writes its whole text.
unfoldable pub write_formatted : Bytes → RingBuffer → ℕ × RingBuffer
write_formatted text r =
    let dest = get_write_dest (length text + 1) r in (dest, store dest (text ++ 0 ∷ []) r)

-- The constructors, with the address that they keep.
unfoldable pub new_exception : Message → RingBuffer → ℕ × RingBuffer
new_exception (plain msg) r = write_as_c_str (c_str msg) r
new_exception (view msg) r = write_as_c_str msg r
new_exception (prefixed prefix msg) r = write_parts (c_str prefix ∷ c_str msg ∷ []) r
new_exception (prefixed_view prefix msg) r = write_parts (c_str prefix ∷ msg ∷ []) r
new_exception (formatted text) r = write_formatted text r

-- `what`, as the reader of a C string sees it.
unfoldable pub what : ℕ → RingBuffer → Bytes
what message r = c_str (drop message r.memory)

-- Several exceptions, one after the other.
unfoldable pub raise : List Message → RingBuffer → RingBuffer
raise [] r = r
raise (m ∷ ms) r = raise ms (new_exception m r).1

-- Their addresses.
unfoldable pub addresses : List Message → RingBuffer → List ℕ
addresses [] r = []
addresses (m ∷ ms) r = (new_exception m r).0 ∷ addresses ms (new_exception m r).1

-- The text that a constructor is given.
abbrev pub text_of : Message → Bytes
text_of (plain msg) = c_str msg
text_of (view msg) = msg
text_of (prefixed prefix msg) = c_str prefix ++ c_str msg
text_of (prefixed_view prefix msg) = c_str prefix ++ msg
text_of (formatted text) = text

-- A text that fits the buffer, and that a C string can hold.
pub record Fits (m : Message) : Type 0 where
  pub no_zero : NoneOf 0 (text_of m)
  pub short : length (text_of m) < 4096

-- Nothing is written to the buffer but from its start.
pub record IsBuffer (r : RingBuffer) : Type 0 where
  pub at_start : r.i ≡ 0
  pub size : r.n ≡ 4096
  pub held : 4096 ≤ length r.memory

module _ (r : RingBuffer) (b : IsBuffer r) where
  get_write_dest-IsBuffer : (size : ℕ) → get_write_dest size r ≡ 0
  unfolding get_write_dest
  get_write_dest-IsBuffer size = ground (arith, b.at_start)

  store_one :
      (text : Bytes) → length text < 4096 → write_as_c_str text r ≡ (0, store 0 (text ++ 0 ∷ []) r)
  store_one text h =
      rw
        (
          write_as_c_str_lem r (omega arith) (omega arith) text (omega arith),
          get_write_dest-IsBuffer (length text + 1),
        )
        refl

  store_two :
      (prefix text : Bytes)
      → length (prefix ++ text) < 4096
      → write_parts (prefix ∷ text ∷ []) r ≡ (0, store 0 ((prefix ++ text) ++ 0 ∷ []) r)
  store_two prefix text h =
      let e : prefix ++ (text ++ []) ≡ prefix ++ text = rw (append-nil text) refl in
      rw
        (
          write_parts-joined r (omega arith) (omega arith) (prefix ∷ text ∷ [])
              (omega (arith, length-append prefix text)),
          e,
        )
        (store_one (prefix ++ text) h)

  -- Every constructor stores its text at the start of the buffer.
  new_exception_lem :
      (m : Message) → Fits m → new_exception m r ≡ (0, store 0 (text_of m ++ 0 ∷ []) r)
  unfolding new_exception write_formatted
  new_exception_lem (plain msg) f = store_one (c_str msg) f.short
  new_exception_lem (view msg) f = store_one msg f.short
  new_exception_lem (prefixed prefix msg) f = store_two (c_str prefix) (c_str msg) f.short
  new_exception_lem (prefixed_view prefix msg) f = store_two (c_str prefix) msg f.short
  new_exception_lem (formatted text) f =
      rw (write_formatted, get_write_dest-IsBuffer (length text + 1)) refl

  new_exception-IsBuffer : (m : Message) → Fits m → IsBuffer (new_exception m r).1
  new_exception-IsBuffer m f = rw (new_exception_lem m f) (record {
    at_start = b.at_start;
    size = b.size;
    held = omega (
      arith,
      length-blit 0 (text_of m ++ 0 ∷ []) r.memory
          (omega (arith, length-append (text_of m) (0 ∷ []))),
    );
  })

  what-new_exception : (m : Message) → Fits m → what 0 (new_exception m r).1 ≡ text_of m
  unfolding what
  what-new_exception m f =
      rw (new_exception_lem m f) (c_str-stored 0 (text_of m) r.memory f.no_zero (omega arith))

last_text :
    (ms : List Message) (m : Message) (r : RingBuffer)
    → IsBuffer r
    → All Fits ms
    → Fits m
    → what 0 (raise (ms ++ m ∷ []) r) ≡ text_of m
unfolding raise
last_text [] m r b fs f = what-new_exception r b m f
last_text (x ∷ ms) m r b fs f =
    last_text ms m (new_exception x r).1 (new_exception-IsBuffer r b x fs.0) fs.1 f

-- Exceptions are made one after the other, `m` the last of them, and each of their texts is shorter
-- than 4096 bytes and without a 0 byte. Then `what` of every one of them, and of every one made
-- before, is the text of `m`: an exception that is caught later than another one is made has lost
-- its text.
pub what-raise :
    (ms : List Message) (m : Message) (r : RingBuffer)
    → IsBuffer r
    → All Fits ms
    → Fits m
    → All
        (λ address. what address (raise (ms ++ m ∷ []) r) ≡ text_of m)
        (addresses (ms ++ m ∷ []) r)
unfolding raise addresses
what-raise [] m r b fs f = (
  ap (λ a. what a (new_exception m r).1) (ap (λ p. p.0) (new_exception_lem r b m f))
      ∙ what-new_exception r b m f,
  tt,
)
what-raise (x ∷ ms) m r b fs f = (
  ap (λ a. what a (raise (ms ++ m ∷ []) (new_exception x r).1))
        (ap (λ p. p.0) (new_exception_lem r b x fs.0))
      ∙ last_text ms m (new_exception x r).1 (new_exception-IsBuffer r b x fs.0) fs.1 f,
  what-raise ms m (new_exception x r).1 (new_exception-IsBuffer r b x fs.0) fs.1 f,
)

get_elem?-blit :
    (at : ℕ) (c : ℕ) (m : Bytes) → at < length m → get_elem? (blit at (c ∷ []) m) at ≡ some c
unfolding blit
get_elem?-blit zero c [] h = absurd (omega arith)
get_elem?-blit zero c (x ∷ m) h = refl
get_elem?-blit (suc at) c [] h = absurd (omega arith)
get_elem?-blit (suc at) c (x ∷ m) h =
    let e : suc at + 1 ≡ suc (at + 1) = omega arith in rw e (get_elem?-blit at c m (omega arith))

-- A text of 4096 bytes or more, whose end lies in the heap, is not cut at its end: the byte behind
-- the buffer at its length is set to 0.
pub new_exception-past_end :
    (text : Bytes) (r : RingBuffer)
    → IsBuffer r
    → 4096 ≤ length text
    → length text < length r.memory
    → (r.n ≤ length text)
      × (get_elem? (new_exception (view text) r).1.memory (length text) ≡ some 0)
unfolding new_exception write_as_c_str
new_exception-past_end text r b h l =
    let part : Bytes = take (min (length text) r.n) text in
    let e : 0 + length text ≡ length text = omega arith in
    let same : length (blit 0 part r.memory) ≡ length r.memory =
      length-blit 0 part r.memory (omega (arith, length-take (min (length text) r.n) text)) in
    (
      omega arith,
      rw (get_write_dest-IsBuffer r b (length text + 1), e)
          (get_elem?-blit (length text) 0 (blit 0 part r.memory) (omega (arith, same))),
    )
