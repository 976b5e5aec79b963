-- ===== src/Rtp/Packet/Sent.antt =====
-- What a packet carries when it is sent.
use rtp_server.Common.{
  ℕ, ◌^◌, ◌≤◌, ◌<◌, ◌≡◌, refl, ap, sym, ◌∙◌, inl, inr, Bool, true, [], ◌∷◌, arith, ltb, le-leb,
  if◌then◌else◌, Bool-cases, length, length-take, take, Bytes, blit, take-blit,
}
use rtp_server.Exception.{ok}
use rtp_server.Rtp.Packet.{
  Packet, max_size, is_fragment, remaining_of, to_size, copy_frame, new_packet, sent_bytes,
  get_bytes_written,
}

-- How many bytes of the frame a packet takes.
abbrev pub payload_size : ℕ → ℕ → ℕ
payload_size size offset = if is_fragment size offset then max_size else size

copy_frame_lem :
    (n : ℕ) (frame buffer : Bytes)
    → n ≤ length frame
    → (p : Packet) × (copy_frame n frame buffer ≡ ok p)
      × (sent_bytes p ≡ take n frame)
      × (get_bytes_written p ≡ n)
unfolding copy_frame sent_bytes get_bytes_written
copy_frame_lem n frame buffer h = (
  record { bytes = blit 0 (take n frame) buffer; length_field = n },
  rw (le-leb h),
  ap (λ k. take k (blit 0 (take n frame) buffer)) (sym size) ∙ take-blit (take n frame) buffer,
  refl,
)
  where
    size : length (take n frame) ≡ n
    size = omega (arith, length-take n frame)

module _ (fresh : ℕ → Bytes) (ssrc timestamp size offset seq : ℕ) (video : Bool) where
  fragment :
      (frame : Bytes)
      → is_fragment size offset ≡ true
      → max_size ≤ length frame
      → (p : Packet) × (new_packet fresh ssrc timestamp size frame offset seq video ≡ ok p)
        × (sent_bytes p ≡ take (payload_size size offset) frame)
        × (get_bytes_written p ≡ payload_size size offset)
  unfolding new_packet
  fragment [] cut h = absurd (omega arith)
  fragment (b ∷ f) cut h = rw (new_packet, cut) (copy_frame_lem max_size (b ∷ f) _ h)

  -- For every packet that reads inside its frame: it is built, what is sent are the first bytes of
  -- the frame and nothing else, whatever the offset, and `get_bytes_written` is their number.
  pub new_packet_lem :
      (frame : Bytes)
      → payload_size size offset ≤ length frame
      → (p : Packet) × (new_packet fresh ssrc timestamp size frame offset seq video ≡ ok p)
        × (sent_bytes p ≡ take (payload_size size offset) frame)
        × (get_bytes_written p ≡ payload_size size offset)
  unfolding new_packet
  new_packet_lem frame h = elim (Bool-cases (is_fragment size offset)) [
    | inl cut ↦ fragment frame cut (rw cut at h)
    | inr whole ↦
        let fits : size ≤ length frame = rw whole at h in
        rw (new_packet, whole) (copy_frame_lem size frame _ fits)
  ]

pub is_fragment_behind : (b o : ℕ) → 0 < o → is_fragment b o ≡ true
unfolding is_fragment
is_fragment_behind b o h = ground arith

pub is_fragment_first : (b : ℕ) → b < 2 ^ 31 → is_fragment b 0 ≡ ltb max_size b
unfolding is_fragment remaining_of to_size
is_fragment_first b h = ground arith
