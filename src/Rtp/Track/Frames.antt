-- ===== src/Rtp/Track/Frames.antt =====
-- The frames that one call of `send_frames` sends, and where it does not end.
use rtp_server.Common.{
  ℕ, zero, suc, ◌+◌, ◌%◌, ◌^◌, ◌<◌, ◌≡◌, refl, ap, sym, ◌∙◌, Bool, true, false, none, List, [], ◌∷◌,
  ◌++◌, append-nil, arith, leb, if◌then◌else◌, length, take, Bytes, All,
}
use rtp_server.Exception.{out_of_fuel, ok, Outcome, done, threw}
use rtp_server.Rtp.Packet.{max_size}
use rtp_server.Rtp.Fragments.{Sender, Frame, Setting, send_frame}
use rtp_server.Rtp.Fragments.Sent.{after_packets, after_packets_add, packet_count, send_frame_lem}
use rtp_server.Rtp.Track.{
  Clock, Demuxer, no_frame, Stream, Track, read_frame, sample_rate_to_npt, send_one, send_until,
  cutoff_of, send_frames,
}

-- The sender behind one frame.
abbrev pub after_frame : Sender → Frame → Sender
after_frame s frame =
    if leb (length frame.bytes) max_size
    then after_packets 1 frame.bytes s
    else after_packets (packet_count (length frame.bytes)) (take max_size frame.bytes) s

abbrev pub after_frames : Sender → List Frame → Sender
after_frames s [] = s
after_frames s (x ∷ xs) = after_frames (after_frame s x) xs

abbrev pub Accepting : Setting → Type 0
Accepting c = (sent : List Bytes) (d : Bytes) → c.accepts sent d ≡ true

send_frame-after_frame :
    (c : Setting) (frame : Frame) (s : Sender)
    → Accepting c
    → length frame.bytes < 2 ^ 31
    → send_frame c frame s ≡ done (after_frame s frame)
send_frame-after_frame c frame s takes small =
    send_frame_lem c frame takes small s ∙ merge (leb (length frame.bytes) max_size) _ _
  where
    merge : (b : Bool) (x y : Sender) → (if b then done x else done y) ≡ done (if b then x else y)
    merge true x y = refl
    merge false x y = refl

module _ (clock : Clock) (av : Demuxer) (packets : ℕ) where
  -- The demuxer yields these frames of the stream, one after the other.
  abbrev pub Delivers : List Frame → Stream clock av → Stream clock av → Type 0
  Delivers [] s s' = s ≡ s'
  Delivers (x ∷ xs) s s' =
      (s₁ : Stream clock av) × (read_frame clock av packets s ≡ ok (x, s₁))
      × (s₁.sample_rate ≡ s.sample_rate)
      × Delivers xs s₁ s'

  abbrev pub is_early : clock.Time → ℕ → Frame → Bool
  is_early cutoff rate x = clock.lt (clock.divide x.timestamp rate) cutoff

  abbrev at_frame : Track clock av → Frame → Stream clock av → Track clock av
  at_frame t x s = record t {
    stream = s;
    play_time = clock.divide x.timestamp s.sample_rate;
    sender = after_frame t.sender x;
  }

  send_one_lem :
      (t : Track clock av) (x : Frame) (s : Stream clock av)
      (rest : Track clock av → Outcome (Track clock av))
      → Accepting t.setting
      → length x.bytes < 2 ^ 31
      → read_frame clock av packets t.stream ≡ ok (x, s)
      → send_one clock av packets t rest ≡ rest (at_frame t x s)
  unfolding send_one sample_rate_to_npt
  send_one_lem t x s rest takes small e =
      rw (send_one, e, send_frame-after_frame t.setting x t.sender takes small)

  send_until_next :
      (f : ℕ) (cutoff : clock.Time) (t : Track clock av) (x : Frame) (s : Stream clock av)
      → Accepting t.setting
      → length x.bytes < 2 ^ 31
      → clock.lt t.play_time cutoff ≡ true
      → read_frame clock av packets t.stream ≡ ok (x, s)
      → send_until clock av (suc f) packets cutoff t
        ≡ send_until clock av f packets cutoff (at_frame t x s)
  unfolding send_until
  send_until_next f cutoff t x s takes small early e =
      rw (send_until, early) (send_one_lem t x s _ takes small e)

  send_until_last :
      (f : ℕ) (cutoff : clock.Time) (t : Track clock av)
      → clock.lt t.play_time cutoff ≡ false
      → send_until clock av (suc f) packets cutoff t ≡ done t
  unfolding send_until
  send_until_last f cutoff t late = rw (send_until, late)

  abbrev at_end : Track clock av → List Frame → Frame → Stream clock av → Track clock av
  at_end t xs x s = record t {
    stream = s;
    play_time = clock.divide x.timestamp s.sample_rate;
    sender = after_frames t.sender (xs ++ x ∷ []);
  }

  send_until_lem :
      (f : ℕ) (cutoff : clock.Time) (t : Track clock av) (xs : List Frame) (x : Frame)
      (s : Stream clock av)
      → Accepting t.setting
      → All (λ (y : Frame). length y.bytes < 2 ^ 31) (xs ++ x ∷ [])
      → Delivers (xs ++ x ∷ []) t.stream s
      → clock.lt t.play_time cutoff ≡ true
      → All (λ y. is_early cutoff t.stream.sample_rate y ≡ true) xs
      → is_early cutoff t.stream.sample_rate x ≡ false
      → length xs + 1 < f
      → send_until clock av f packets cutoff t ≡ done (at_end t xs x s)
  send_until_lem zero cutoff t xs x s takes small d now early late l = absurd (omega arith)
  send_until_lem (suc zero) cutoff t xs x s takes small d now early late l = absurd (omega arith)
  send_until_lem (suc (suc f)) cutoff t [] x s takes small (s₁, e, r, same) now early late l =
      send_until_next (suc f) cutoff t x s₁ takes small.0 now e
      ∙ send_until_last f cutoff (at_frame t x s₁) (rw r late)
      ∙ ap (λ q. done (at_frame t x q)) same
  send_until_lem (suc (suc f)) cutoff t (y ∷ ys) x s takes small (s₁, e, r, d) now early late l =
      send_until_next (suc f) cutoff t y s₁ takes small.0 now e
      ∙ send_until_lem (suc f) cutoff (at_frame t y s₁) ys x s takes small.1 d (rw r early.0)
          (rw r early.1) (rw r late) (omega arith)

  -- Where the time is before the end of the buffer, the demuxer yields the frames `xs`, all before
  -- it, and then `x`, at or behind it, each below 2 ^ 31 bytes, and the kernel takes every datagram:
  -- the call ends, has sent exactly those frames, stands at the time of `x`, and says that it sent.
  pub send_frames_lem :
      (rounds : ℕ) (t : Track clock av) (xs : List Frame) (x : Frame) (s : Stream clock av)
      → Accepting t.setting
      → All (λ (y : Frame). length y.bytes < 2 ^ 31) (xs ++ x ∷ [])
      → Delivers (xs ++ x ∷ []) t.stream s
      → clock.lt t.play_time (cutoff_of clock av t) ≡ true
      → All (λ y. is_early (cutoff_of clock av t) t.stream.sample_rate y ≡ true) xs
      → is_early (cutoff_of clock av t) t.stream.sample_rate x ≡ false
      → length xs + 1 < rounds
      → send_frames clock av rounds packets t
        ≡ done (
          true,
          record t {
            stream = s;
            play_time = clock.divide x.timestamp s.sample_rate;
            sender = after_frames t.sender (xs ++ x ∷ []);
          },
        )
  unfolding send_frames
  send_frames_lem rounds t xs x s takes small d now early late l = rw (
    send_frames,
    send_until_lem rounds (cutoff_of clock av t) t xs x s takes small d now early late l,
    now,
  )

  -- The file is read to its end, and stays so.
  abbrev pub StaysAtEnd : (av.File → Type 0) → Type 0
  StaysAtEnd End =
      (file : av.File)
      → End file
      → ((av.av_read_frame file).0 ≡ none) × End (av.av_read_frame file).1

  module _ (End : av.File → Type 0) (stays : StaysAtEnd End) where
    read_frame_at_end :
        (p : ℕ) (s : Stream clock av)
        → End s.file
        → 0 < p
        → read_frame clock av p s ≡ ok (no_frame, record s { file = (av.av_read_frame s.file).1 })
    unfolding read_frame
    read_frame_at_end zero s e l = absurd (omega arith)
    read_frame_at_end (suc p) s e l = rw (read_frame, (stays s.file e).0)

    -- Where the file is at its end and stays so, and the time 0 of an empty frame is before the end
    -- of the buffer, as the time of the track is: however many rounds the loop is given, it uses all
    -- of them, and has sent an empty datagram in each. The kernel takes every datagram.
    pub send_until_at_end :
        (rounds : ℕ) (cutoff : clock.Time) (t : Track clock av)
        → 0 < packets
        → End t.stream.file
        → Accepting t.setting
        → t.sender.sequence_number < 2 ^ 16
        → clock.lt t.play_time cutoff ≡ true
        → clock.lt (clock.divide 0 t.stream.sample_rate) cutoff ≡ true
        → (q : Track clock av) × (send_until clock av rounds packets cutoff t ≡ threw out_of_fuel q)
          × (q.sender ≡ after_packets rounds [] t.sender)
    unfolding send_until
    send_until_at_end zero cutoff t l e takes small now again = (t, refl, none_sent)
      where
        none_sent : t.sender ≡ after_packets 0 [] t.sender
        none_sent =
            λ i. record { sequence_number = same i; sent = sym (append-nil t.sender.sent) i }
          where
            same : t.sender.sequence_number ≡ (t.sender.sequence_number + 0) % 2 ^ 16
            same = omega arith
    send_until_at_end (suc f) cutoff t l e takes small now again =
        let s : Stream clock av = record t.stream { file = (av.av_read_frame t.stream.file).1 } in
        let (q, run, sent) =
          send_until_at_end f cutoff (at_frame t no_frame s) l (stays t.stream.file e).1 takes
            (omega arith) again again in
        (
          q,
          send_until_next f cutoff t no_frame s takes (omega arith) now
                (read_frame_at_end packets t.stream e l)
              ∙ run,
          sent ∙ after_packets_add f [] t.sender,
        )
