-- ===== src/Rtp/Packet.antt =====
-- `RTPPacket` of src/Server/RTPPacket.h and src/Server/RTPPacket.cpp.
-- `int32_t`, `int` and `uint32_t` values are their bit patterns, below 2 ^ 32. A word is stored
-- with its lowest byte first, as on the machines that the server is built for.
pub mod Sent
pub mod Header
use Prim.Native.Nat.{bit_and, bit_or}
use rtp_server.Common.{
  ℕ, ◌+◌, ◌-◌, ◌*◌, ◌/◌, ◌%◌, ◌^◌, Bool, true, false, not, ◌||◌, List, [], ◌∷◌, ◌++◌, ltb, leb,
  ◌==◌, if◌then◌else◌, length, take, Bytes, blit,
}
use rtp_server.Exception.{Error, undefined_behaviour, Result, ok, err}

abbrev pub version_bits : ℕ
version_bits = 2 ^ 31

abbrev pub payload_type_video_bits : ℕ
payload_type_video_bits = 32 * 2 ^ 16

abbrev pub max_size : ℕ
max_size = 1400

-- `sizeof(header)`
abbrev pub header_size : ℕ
header_size = 12

abbrev pub fu_a_type : ℕ
fu_a_type = 28

pub record Packet : Type 0 where
  pub bytes : Bytes
  pub length_field : ℕ

abbrev pub to_bytes : ℕ → Bytes
to_bytes w = w % 256 ∷ w / 256 % 256 ∷ w / 2 ^ 16 % 256 ∷ w / 2 ^ 24 % 256 ∷ []

-- `header[0]`
pub first_word : ℕ → Bool → ℕ
first_word sequence_number is_video =
    bit_or (bit_or version_bits (if is_video then payload_type_video_bits else 0)) sequence_number

pub header_bytes : ℕ → ℕ → ℕ → Bool → Bytes
header_bytes ssrc timestamp sequence_number is_video =
    to_bytes (first_word sequence_number is_video) ++ (to_bytes timestamp ++ to_bytes ssrc)

-- `int remaining = size - offset`: the difference is taken modulo 2 ^ 32.
unfoldable pub remaining_of : ℕ → ℕ → ℕ
remaining_of size offset = (size + 2 ^ 32 - offset) % 2 ^ 32

-- `size_t(remaining)`: a negative number becomes a very large one.
unfoldable pub to_size : ℕ → ℕ
to_size remaining = if ltb remaining (2 ^ 31) then remaining else remaining + (2 ^ 64 - 2 ^ 32)

-- The start and the end bit of the fragment header.
pub ser_bits : ℕ → ℕ → ℕ
ser_bits size offset =
    if offset == 0
    then 2 ^ 7
    else if leb (to_size (remaining_of size offset)) max_size
    then 2 ^ 6
    else 0

pub fu_indicator : ℕ → ℕ
fu_indicator nal_header = bit_or (bit_and nal_header (15 * 2 ^ 4)) fu_a_type

pub fu_header : ℕ → ℕ → ℕ
fu_header ser nal_header = bit_or ser (bit_and nal_header 15)

unfoldable pub is_fragment : ℕ → ℕ → Bool
is_fragment size offset = ltb max_size (to_size (remaining_of size offset)) || not (offset == 0)

-- `*data`
abbrev first_byte : Bytes → Result ℕ
first_byte [] = err undefined_behaviour
first_byte (b ∷ _) = ok b

-- `memcpy(this->data, data, n)`, which may not read past the frame.
pub copy_frame : ℕ → Bytes → Bytes → Result Packet
copy_frame n frame buffer =
    if leb n (length frame)
    then ok (record { bytes = blit 0 (take n frame) buffer; length_field = n })
    else err undefined_behaviour

-- The constructor. `fresh n` is what `new uint8_t[n]` holds before it is written to, and `frame`
-- the bytes behind `data`.
pub new_packet : (ℕ → Bytes) → ℕ → ℕ → ℕ → Bytes → ℕ → ℕ → Bool → Result Packet
new_packet fresh ssrc timestamp size frame offset sequence_number is_video =
    if is_fragment size offset
    then (elim (first_byte frame) [
      | err e ↦ err e
      | ok nal_header ↦
          let header = header_bytes ssrc timestamp sequence_number is_video in
          let b₁ = blit 0 header (fresh (header_size + max_size + 2)) in
          let b₂ = blit header_size (fu_indicator nal_header ∷ []) b₁ in
          let b₃ = blit (header_size + 1) (fu_header (ser_bits size offset) nal_header ∷ []) b₂ in
          copy_frame max_size frame b₃
    ])
    else copy_frame size frame
        (blit 0 (header_bytes ssrc timestamp sequence_number is_video) (fresh (header_size + size)))

-- `get_bytes_written`
pub get_bytes_written : Packet → ℕ
get_bytes_written p = p.length_field

-- What `Track::send_frames` hands to the socket: `packet.length` bytes from `packet.data` on.
pub sent_bytes : Packet → Bytes
sent_bytes p = take p.length_field p.bytes
