-- ===== src/Rtp/Fragments.antt =====
-- The inner loop of `Track::send_frames` (src/Server/Track.cpp), which sends one frame, and
-- `RTPTransport::send` and `UDP::Socket::send` below it.
pub mod Sent
use rtp_server.Common.{
  ℕ, zero, suc, ◌+◌, ◌-◌, ◌%◌, ◌^◌, Bool, true, false, List, [], ◌∷◌, ◌++◌, ltb, leb, ◌==◌,
  if◌then◌else◌, length, Bytes,
}
use rtp_server.Exception.{Error, send_failed, out_of_fuel, Result, ok, err, Outcome, done, threw}
use rtp_server.Rtp.Packet.{Packet, new_packet, sent_bytes, get_bytes_written}

-- What the loop changes: the sequence number of the track, and the datagrams that the kernel took.
pub record Sender : Type 0 where
  pub sequence_number : ℕ
  pub sent : List Bytes

-- `Stream::Packet`: `data` holds `size` bytes.
pub record Frame : Type 0 where
  pub timestamp : ℕ
  pub bytes : Bytes

-- What stays the same while a frame is sent. `accepts sent d` says whether the kernel takes the
-- datagram `d` after those in `sent`; `fresh` is the memory that `new` hands out.
pub record Setting : Type 0 where
  pub fresh : ℕ → Bytes
  pub accepts : List Bytes → Bytes → Bool
  pub ssrc : ℕ
  pub is_video : Bool

-- `::send` on the socket, with the exception where it fails.
unfoldable pub send : Setting → Bytes → Sender → Outcome Sender
send c d s =
    if c.accepts s.sent d then done (record s { sent = s.sent ++ d ∷ [] }) else threw send_failed s

-- `while (1)`, with the bytes to send and the offset.
pub send_from : ℕ → Setting → Frame → ℕ → ℕ → Sender → Outcome Sender
send_from zero c frame to_send offset s = threw out_of_fuel s
send_from (suc f) c frame to_send offset s =
    let s' = record s { sequence_number = (s.sequence_number + 1) % 2 ^ 16 } in
    elim (new_packet c.fresh c.ssrc (frame.timestamp % 2 ^ 32) to_send frame.bytes offset
      s.sequence_number c.is_video) [
        | err e ↦ threw e s'
        | ok p ↦ elim (send c (sent_bytes p) s') [
          | threw e s'' ↦ threw e s''
          | done s'' ↦
              if leb to_send (get_bytes_written p)
              then done s''
              else send_from f c frame (to_send - get_bytes_written p)
                  ((offset + get_bytes_written p) % 2 ^ 32) s''
        ]
      ]

-- Each round sends a byte at least, so `size + 1` rounds are enough.
unfoldable pub send_frame : Setting → Frame → Sender → Outcome Sender
unfolding send_from
send_frame c frame s = send_from (length frame.bytes + 1) c frame (length frame.bytes) 0 s
