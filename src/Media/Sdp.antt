-- ===== src/Media/Sdp.antt =====
-- `Stream::get_sdp` of src/Server/Stream.cpp: the loop that takes the carriage returns out of the
-- description. `av_sdp_create` is a parameter: what it writes into the 512 bytes, or a failure.
pub mod Gap
pub mod Removed
mod Tests
use rtp_server.Common.{
  ℕ, zero, suc, ◌+◌, ◌-◌, Bool, true, false, ◌||◌, Option, none, some, [], ◌∷◌, ◌==◌, if◌then◌else◌,
  length, get_elem?, take, drop, blit, Bytes, c_str,
}
use rtp_server.Exception.{Result, ok, err, sdp_failed}

abbrev pub byte_is : ℕ → Option ℕ → Bool
byte_is c none = false
byte_is c (some x) = x == c

-- `memmove(&buffer[dst], &buffer[src], size)`
abbrev pub memmove : ℕ → ℕ → ℕ → Bytes → Bytes
memmove dst src size buffer = blit dst (take size (drop src buffer)) buffer

-- The move behind a carriage return at `start`, if there was one (-1 where there was none), and
-- what `count` is then.
abbrev pub close_gap : ℕ → Option ℕ → ℕ → Bytes → ℕ × Bytes
close_gap i none count buffer = (count, buffer)
close_gap i (some start) count buffer =
    (count + 1, memmove (start - count) (start + 1) (i - start) buffer)

-- The rounds from `i` on; there are as many as are left up to `n`.
unfoldable pub remove_from : ℕ → ℕ → ℕ → Option ℕ → ℕ → Bytes → Bytes
remove_from zero i n start count buffer = buffer
remove_from (suc rounds) i n start count buffer =
    let stop = i == n || byte_is b'\r' (get_elem? buffer i) in
    let (count', buffer') = close_gap i start count buffer in
    remove_from rounds (i + 1) n (if stop then some i else start) (if stop then count' else count)
      (if stop then buffer' else buffer)

unfoldable pub get_sdp : Option Bytes → Result Bytes
get_sdp none = err sdp_failed
get_sdp (some buffer) = let n = length (c_str buffer) in ok (remove_from (n + 1) 0 n none 0 buffer)
