-- ===== src/Rtp/Fragments/Sent.antt =====
-- What the loop sends for one frame.
use rtp_server.Common.{
  ℕ, zero, suc, ◌+◌, ◌-◌, ◌/◌, ◌%◌, ◌^◌, ◌≤◌, ◌<◌, ◌≡◌, ap, ◌∙◌, inl, inr, true, false, List, [],
  ◌∷◌, ◌++◌, append_assoc, arith, leb, le-leb, if◌then◌else◌, Bool-cases, length, take, take_all,
  replicate, Bytes,
}
use rtp_server.Exception.{done}
use rtp_server.Rtp.Packet.{is_fragment, max_size}
use rtp_server.Rtp.Packet.Sent.{payload_size, new_packet_lem, is_fragment_behind, is_fragment_first}
use rtp_server.Rtp.Fragments.{Sender, Frame, Setting, send, send_from, send_frame}

-- The number of packets for `n` bytes.
abbrev pub packet_count : ℕ → ℕ
packet_count n = (n + max_size - 1) / max_size

-- `s` after `n` packets more, all with the bytes `d`.
abbrev pub after_packets : ℕ → Bytes → Sender → Sender
after_packets n d s = record {
  sequence_number = (s.sequence_number + n) % 2 ^ 16;
  sent = s.sent ++ replicate n d;
}

module _ (c : Setting) (frame : Frame)
    (takes : (sent : List Bytes) (d : Bytes) → c.accepts sent d ≡ true) where
  -- One round that sends `n` bytes of the frame.
  send_round :
      (f to_send offset : ℕ) (s : Sender)
      → payload_size to_send offset ≤ length frame.bytes
      → send_from (suc f) c frame to_send offset s ≡ (
          let n = payload_size to_send offset in
          let s' = after_packets 1 (take n frame.bytes) s in
          if leb to_send n
          then done s'
          else send_from f c frame (to_send - n) ((offset + n) % 2 ^ 32) s')
  unfolding send_from send
  send_round f to_send offset s h =
      let (p, built, bytes, written) =
        new_packet_lem c.fresh c.ssrc (frame.timestamp % 2 ^ 32) to_send offset s.sequence_number
          c.is_video frame.bytes h in
      rw (send_from, built, bytes, send, takes, written)

pub after_packets_add :
    (n : ℕ) (d : Bytes) (s : Sender)
    → after_packets n d (after_packets 1 d s) ≡ after_packets (suc n) d s
after_packets_add n d s = λ i. record {
  sequence_number = number i;
  sent = append_assoc s.sent (d ∷ []) (replicate n d) i;
}
  where
    number : ((s.sequence_number + 1) % 2 ^ 16 + n) % 2 ^ 16 ≡ (s.sequence_number + suc n) % 2 ^ 16
    number = omega arith

module _ (c : Setting) (frame : Frame)
    (takes : (sent : List Bytes) (d : Bytes) → c.accepts sent d ≡ true)
    (small : length frame.bytes < 2 ^ 31) where
  abbrev first_part : Bytes
  first_part = take max_size frame.bytes

  -- Behind the first packet of a frame that is cut, every packet repeats that part.
  send_rest :
      (f b o : ℕ) (s : Sender)
      → 0 < o
      → 0 < b
      → b + o ≤ length frame.bytes
      → max_size ≤ length frame.bytes
      → b < f
      → send_from f c frame b o s ≡ done (after_packets (packet_count b) first_part s)
  send_rest zero b o s ho hb fits long fuel = absurd (omega arith)
  send_rest (suc f) b o s ho hb fits long fuel =
      send_round c frame takes f b o s (rw cut long)
      ∙ rw cut (elim (Bool-cases (leb b max_size)) [
        | inl last ↦ rw last (ap (λ n. done (after_packets n first_part s)) (ground arith))
        | inr more ↦
            rw (more, next_offset)
              (send_rest f (b - max_size) (o + max_size) (after_packets 1 first_part s)
                  (omega arith) (ground arith) (ground arith) long (ground arith)
                ∙ ap done (after_packets_add (packet_count (b - max_size)) first_part s)
                ∙ ap (λ n. done (after_packets n first_part s)) (ground arith))
      ])
    where
      cut : is_fragment b o ≡ true
      cut = is_fragment_behind b o ho

      next_offset : (o + max_size) % 2 ^ 32 ≡ o + max_size
      next_offset = omega arith

  -- Where the kernel takes every datagram, the loop ends for every frame below 2 ^ 31 bytes: one of
  -- up to 1400 bytes is sent as it is, in one datagram, and a longer one as `packet_count` datagrams
  -- that all hold its first 1400 bytes. The sequence number grows by the number of datagrams,
  -- modulo 2 ^ 16.
  pub send_frame_lem :
      (s : Sender)
      → send_frame c frame s ≡ (
          if leb (length frame.bytes) max_size
          then done (after_packets 1 frame.bytes s)
          else done (after_packets (packet_count (length frame.bytes)) first_part s))
  unfolding send_frame
  send_frame_lem s = elim (Bool-cases (leb size max_size)) [
    | inl whole ↦
        let uncut : is_fragment size 0 ≡ false = is_fragment_first size small ∙ ground arith in
        rw (whole, one_more)
          (send_round c frame takes size size 0 s (rw uncut (omega arith))
            ∙ rw (uncut, le-leb {a = size} {b = size} (omega arith), take_all frame.bytes))
    | inr long ↦
        let cut : is_fragment size 0 ≡ true = is_fragment_first size small ∙ ground arith in
        rw (long, one_more)
          (send_round c frame takes size size 0 s (rw cut (ground arith))
            ∙ rw (cut, long, next_offset)
                (send_rest size (size - max_size) max_size (after_packets 1 first_part s)
                    (omega arith) (ground arith) (ground arith) (ground arith) (ground arith)
                  ∙ ap done (after_packets_add (packet_count (size - max_size)) first_part s)
                  ∙ ap (λ n. done (after_packets n first_part s)) (ground arith)))
  ]
    where
      size : ℕ
      size = length frame.bytes

      one_more : size + 1 ≡ suc size
      one_more = omega arith

      next_offset : (0 + max_size) % 2 ^ 32 ≡ max_size
      next_offset = omega arith
