-- ===== src/Session/Played.antt =====
-- The range that a PLAY request leaves, and the laws of tracks that it rests on.
use rtp_server.Common.{
  ℕ, ◌≡◌, refl, true, false, Bool-cases, inl, inr, List, [], ◌∷◌, map, if◌then◌else◌,
}
use rtp_server.Rtp.Track.{Clock, Demuxer, set_play_time, set_play_range_end}
use rtp_server.Session.{TrackOps, Session, play_tracks, play_between}
use rtp_server.Session.Tracks.{track_ops}

-- The setters give back the time they are given.
pub record TrackLaws (ops : TrackOps) : Type 0 where
  pub time_given : (npt : ops.Time) (t : ops.Track) → (ops.set_play_time npt t).0 ≡ npt
  pub end_given : (npt : ops.Time) (t : ops.Track) → (ops.set_play_range_end npt t).0 ≡ npt

-- The tracks of src/Server/Track.cpp keep the laws.
pub track_ops-TrackLaws :
    (clock : Clock) (av : Demuxer) (rounds packets : ℕ)
    → TrackLaws (track_ops clock av rounds packets)
unfolding set_play_time set_play_range_end
track_ops-TrackLaws clock av rounds packets = record {
  time_given = λ npt t. refl;
  end_given = λ npt t. refl;
}

module _ (ops : TrackOps) (laws : TrackLaws ops) (npt_begin npt_end : ops.Time) where
  -- The range after the request: without tracks the old one, otherwise from `npt_begin` to `npt_end`
  -- or, where that is 0, to the old end.
  abbrev pub range_after : List ops.Track → ops.Time × ops.Time → ops.Time × ops.Time
  range_after [] range = range
  range_after (t ∷ ts) range = (npt_begin, if ops.is_zero npt_end then range.1 else npt_end)

  abbrev pub track_after : ops.Track → ops.Track
  track_after t =
      let timed = (ops.set_play_time npt_begin t).1 in
      if ops.is_zero npt_end then timed else (ops.set_play_range_end npt_end timed).1

  -- The tracks behind the first one set the range to what it is.
  range_after_open :
      (ts : List ops.Track) (second : ops.Time)
      → ops.is_zero npt_end ≡ true
      → range_after ts (npt_begin, second) ≡ (npt_begin, second)
  range_after_open [] second e = refl
  range_after_open (t ∷ ts) second e = rw e

  range_after_given :
      (ts : List ops.Track)
      → ops.is_zero npt_end ≡ false
      → range_after ts (npt_begin, npt_end) ≡ (npt_begin, npt_end)
  range_after_given [] e = refl
  range_after_given (t ∷ ts) e = rw e

  play_tracks_lem :
      (ts : List ops.Track) (range : ops.Time × ops.Time)
      → play_tracks ops npt_begin npt_end ts range ≡ (range_after ts range, map track_after ts)
  unfolding play_tracks
  play_tracks_lem [] range = refl
  play_tracks_lem (t ∷ ts) range = elim (Bool-cases (ops.is_zero npt_end)) [
    | inl open_end ↦ rw (
      play_tracks,
      open_end,
      play_tracks_lem ts,
      laws.time_given npt_begin t,
      range_after_open ts range.1 open_end,
    )
    | inr given ↦ rw (
      play_tracks,
      given,
      play_tracks_lem ts,
      laws.time_given npt_begin t,
      laws.end_given npt_end (ops.set_play_time npt_begin t).1,
      range_after_given ts given,
    )
  ]

  -- Where the setters give back their time: after `play(npt_begin, npt_end)` the session plays,
  -- every track is set to the begin and, unless it is 0, the end, and the range returned and stored
  -- goes from the begin to the end, or to the old end where the end is 0; without tracks the range
  -- is the old one.
  pub play_between_lem :
      (s : Session ops)
      → play_between ops npt_begin npt_end s ≡ (
        range_after s.tracks s.play_range,
        record s {
          is_playing = true;
          play_range = range_after s.tracks s.play_range;
          tracks = map track_after s.tracks;
        },
      )
  unfolding play_between
  play_between_lem s = rw (play_between, play_tracks_lem s.tracks s.play_range)
