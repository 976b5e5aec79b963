-- ===== src/Util/RingBuffer.antt =====
-- The buffer of src/util/RingBuffer.h and src/util/RingBuffer.cpp, which holds the texts of
-- exceptions.
pub mod Texts
use rtp_server.Common.{
  ℕ, zero, suc, ◌+◌, ◌-◌, Bool, true, false, List, [], ◌∷◌, ◌++◌, ltb, leb, if◌then◌else◌, ◌==◌,
  min, length, take, drop, blit, Bytes,
}

-- `memory` is the heap from `buffer` on: the `n` bytes of the buffer, and what stands behind them.
pub record RingBuffer : Type 0 where
  pub memory : Bytes
  pub i : ℕ
  pub n : ℕ

-- The offset in the buffer. `i` is at most `n`.
unfoldable pub get_write_dest : ℕ → RingBuffer → ℕ
get_write_dest size r = if leb size (r.n - r.i) then r.i else 0

-- `memcpy` or an assignment to one byte.
abbrev pub store : ℕ → Bytes → RingBuffer → RingBuffer
store at bytes r = record r { memory = blit at bytes r.memory }

-- `write`: at most `n` bytes are copied. The result is the offset.
unfoldable pub write : Bytes → RingBuffer → ℕ × RingBuffer
write bytes r =
    let dest = get_write_dest (length bytes) r in
    (dest, store dest (take (min (length bytes) r.n) bytes) r)

-- `write_as_c_str` on one piece: the end is marked behind all of its bytes.
unfoldable pub write_as_c_str : Bytes → RingBuffer → ℕ × RingBuffer
write_as_c_str bytes r =
    let dest = get_write_dest (length bytes + 1) r in
    (
      dest,
      store (dest + length bytes) (0 ∷ []) (store dest (take (min (length bytes) r.n) bytes) r),
    )

-- The sum of the sizes.
abbrev pub total_size : List Bytes → ℕ
total_size [] = 0
total_size (p ∷ ps) = length p + total_size ps

-- The copies of the pieces from `position` on, while the limit is not used up.
unfoldable pub copy_parts : ℕ → ℕ → List Bytes → RingBuffer → RingBuffer
copy_parts size_limit position [] r = r
copy_parts size_limit position (p ∷ ps) r =
    let write_size = min (length p) size_limit in
    let rest =
      copy_parts (size_limit - write_size) (position + write_size) ps
        (store position (take write_size p) r) in
    if size_limit == 0 then r else rest

-- `write_as_c_str` on several pieces.
unfoldable pub write_parts : List Bytes → RingBuffer → ℕ × RingBuffer
write_parts parts r =
    let dest = get_write_dest (total_size parts + 1) r in
    (dest, store (dest + total_size parts) (0 ∷ []) (copy_parts r.n dest parts r))
