-- ===== src/Rtp/Track.antt =====
-- `Track::send_frames` of src/Server/Track.cpp, with `Stream::read_frame` and
-- `Stream::sample_rate_to_npt` of src/Server/Stream.cpp. The demuxer (libavformat) and `float` are
-- parameters. A timestamp is the bit pattern of an `int64_t`.
pub mod Frames
pub mod Open
mod Tests
use rtp_server.Common.{
  ℕ, zero, suc, Bool, true, false, Option, none, some, [], ◌==◌, if◌then◌else◌, Bytes,
}
use rtp_server.Exception.{out_of_fuel, Result, ok, err, Outcome, done, threw}
use rtp_server.Udp.{Socket}
use rtp_server.Rtp.Fragments.{Sender, Frame, Setting, send_frame}

-- `float`: the time of a track and what is done with it. `divide` is that of a timestamp by a rate.
pub record Clock : Type 1 where
  pub Time : Type 0
  pub zero_time : Time
  pub is_zero : Time → Bool
  pub lt : Time → Time → Bool
  pub add_buffer : Time → Time
  pub divide : ℕ → ℕ → Time

-- A packet of the file: the stream it is of, its timestamp and its data.
pub record AvPacket : Type 0 where
  pub stream_index : ℕ
  pub frame : Frame

-- `av_read_frame`, on a file that is read to some place; `none` is an error or the end. `rescale` is
-- `av_rescale_q` of a timestamp of the stream with an index, in its time base, to a frequency.
pub record Demuxer : Type 1 where
  pub File : Type 0
  pub av_read_frame : File → Option AvPacket × File
  pub rescale : ℕ → ℕ → ℕ → ℕ

-- `{}`
abbrev pub no_frame : Frame
no_frame = record { timestamp = 0; bytes = [] }

module _ (clock : Clock) (av : Demuxer) where
  pub record Stream : Type 0 where
    pub file : av.File
    pub stream_index : ℕ
    pub sample_rate : ℕ
    pub timestamp_frequency : ℕ

  -- The two sockets are those of the transport.
  pub record Track : Type 0 where
    pub rtp_socket : Socket
    pub rtcp_socket : Socket
    pub sender : Sender
    pub setting : Setting
    pub stream : Stream
    pub play_time : clock.Time
    pub play_range_end : clock.Time

  -- The `while` loop, which passes the packets of other streams over.
  unfoldable pub read_frame : ℕ → Stream → Result (Frame × Stream)
  read_frame zero s = err out_of_fuel
  read_frame (suc f) s =
      let (packet, file) = av.av_read_frame s.file in
      elim packet [
        | none ↦ ok (no_frame, record s { file = file })
        | some p ↦ elim (p.stream_index == s.stream_index) [
          | true ↦ ok (
            record p.frame {
              timestamp = av.rescale s.stream_index s.timestamp_frequency p.frame.timestamp;
            },
            record s { file = file },
          )
          | false ↦ read_frame f (record s { file = file })
        ]
      ]

  unfoldable pub sample_rate_to_npt : ℕ → Stream → clock.Time
  sample_rate_to_npt timestamp s = clock.divide timestamp s.sample_rate

  -- The frame is read, the time set, and the frame sent; `rest` is what follows.
  pub send_one : ℕ → Track → (Track → Outcome Track) → Outcome Track
  send_one packets t rest = elim (read_frame packets t.stream) [
    | err e ↦ threw e t
    | ok (frame, stream) ↦
        let t' = record t {
          stream = stream;
          play_time = sample_rate_to_npt frame.timestamp stream;
        } in
        elim (send_frame t.setting frame t.sender) [
          | threw e s ↦ threw e (record t' { sender = s })
          | done s ↦ rest (record t' { sender = s })
        ]
  ]

  -- `while (play_time < cutoff)`. `packets` bounds the packets that are read for one frame.
  pub send_until : ℕ → ℕ → clock.Time → Track → Outcome Track
  send_until zero packets cutoff t = threw out_of_fuel t
  send_until (suc f) packets cutoff t = elim (clock.lt t.play_time cutoff) [
    | true ↦ send_one packets t (send_until f packets cutoff)
    | false ↦ done t
  ]

  pub cutoff_of : Track → clock.Time
  cutoff_of t =
      let cutoff = clock.add_buffer t.play_time in
      if clock.is_zero t.play_range_end
      then cutoff
      else if clock.lt t.play_range_end cutoff
      then t.play_range_end
      else cutoff

  -- The result is whether anything was sent.
  unfoldable pub send_frames : ℕ → ℕ → Track → Outcome (Bool × Track)
  unfolding cutoff_of
  send_frames rounds packets t =
      let cutoff = cutoff_of t in
      elim (send_until rounds packets cutoff t) [
        | threw e t' ↦ threw e (clock.lt t.play_time cutoff, t')
        | done t' ↦ done (clock.lt t.play_time cutoff, t')
      ]

  unfoldable pub set_play_time : clock.Time → Track → clock.Time × Track
  set_play_time npt t = (npt, record t { play_time = npt })

  unfoldable pub set_play_range_end : clock.Time → Track → clock.Time × Track
  set_play_range_end npt t = (npt, record t { play_range_end = npt })
