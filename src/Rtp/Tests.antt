-- ===== src/Rtp/Tests.antt =====
-- The theorems on packets at concrete ones.
use rtp_server.Common.{
  ℕ, ◌≡◌, refl, true, [], ◌∷◌, arith, length, length-replicate, replicate, take, Bytes, leb,
  if◌then◌else◌,
}
use rtp_server.Exception.{ok, done}
use rtp_server.Rtp.Packet.{
  Packet, max_size, is_fragment, remaining_of, to_size, new_packet, sent_bytes, get_bytes_written,
}
use rtp_server.Rtp.Packet.Sent.{new_packet_lem}
use rtp_server.Rtp.Fragments.{Sender, Frame, Setting, send_frame}
use rtp_server.Rtp.Fragments.Sent.{after_packets, packet_count, send_frame_lem}

abbrev no_memory : ℕ → Bytes
no_memory n = replicate n 0

new_packet_example :
    (p : Packet) × (new_packet no_memory 7 90 3 (1 ∷ 2 ∷ 3 ∷ 4 ∷ []) 0 1 true ≡ ok p)
    × (sent_bytes p ≡ 1 ∷ 2 ∷ 3 ∷ [])
    × (get_bytes_written p ≡ 3)
unfolding is_fragment remaining_of to_size
new_packet_example = new_packet_lem no_memory 7 90 3 0 1 true (1 ∷ 2 ∷ 3 ∷ 4 ∷ []) (omega arith)

abbrev setting : Setting
setting = record { fresh = no_memory; accepts = λ sent d. true; ssrc = 7; is_video = true }

abbrev long_frame : Frame
long_frame = record { timestamp = 90; bytes = replicate 3000 1 }

abbrev sender : Sender
sender = record { sequence_number = 65535; sent = [] }

send_frame_example : send_frame setting long_frame sender ≡ (
    if leb (length long_frame.bytes) max_size
    then done (after_packets 1 long_frame.bytes sender)
    else done (
        after_packets
          (packet_count (length long_frame.bytes))
          (take max_size long_frame.bytes)
          sender))
send_frame_example =
    send_frame_lem setting long_frame (λ sent d. refl)
      (omega (arith, length-replicate {A = ℕ} 3000 1)) sender
