-- ===== src/Session.antt =====
-- `Session` of src/Server/Session.h and src/Server/Session.cpp: one session. What it does with its
-- tracks is an interface, which src/Server/Track.cpp fills (Session/Tracks.antt).
pub mod Tracks
pub mod Tick
pub mod Played
pub mod Store
mod Tests
use rtp_server.Common.{Bool, true, false, List, [], ◌∷◌, if◌then◌else◌, Bytes}
use rtp_server.Exception.{Error, Outcome, done, threw}

pub record TrackOps : Type 1 where
  pub Time : Type 0
  pub zero_time : Time
  pub is_zero : Time → Bool
  pub Track : Type 0
  -- whether anything was sent
  pub send_frames : Track → Outcome (Bool × Track)
  pub set_play_time : Time → Track → Time × Track
  pub set_play_range_end : Time → Track → Time × Track

module _ (ops : TrackOps) where
  pub record Session : Type 0 where
    pub id : Bytes
    pub tracks : List ops.Track
    pub play_range : ops.Time × ops.Time
    pub is_active : Bool
    pub is_playing : Bool

  -- The constructor.
  abbrev pub new_session : Bytes → Session
  new_session id = record {
    id = id;
    tracks = [];
    play_range = (ops.zero_time, ops.zero_time);
    is_active = true;
    is_playing = false;
  }

  unfoldable pub teardown : Session → Session
  teardown s = record s { is_active = false }

  -- `play()`, with the range it returns.
  unfoldable pub play : Session → (ops.Time × ops.Time) × Session
  play s = (s.play_range, record s { is_playing = true })

  -- The loop of `play(npt_begin, npt_end)`, with `play_range`.
  pub play_tracks :
      ops.Time
      → ops.Time
      → List ops.Track
      → ops.Time × ops.Time
      → (ops.Time × ops.Time) × List ops.Track
  play_tracks npt_begin npt_end [] range = (range, [])
  play_tracks npt_begin npt_end (t ∷ ts) range =
      let (first, t₁) = ops.set_play_time npt_begin t in
      let (second, t₂) = ops.set_play_range_end npt_end t₁ in
      let without = play_tracks npt_begin npt_end ts (first, range.1) in
      let within = play_tracks npt_begin npt_end ts (first, second) in
      if ops.is_zero npt_end then (without.0, t₁ ∷ without.1) else (within.0, t₂ ∷ within.1)

  unfoldable pub play_between : ops.Time → ops.Time → Session → (ops.Time × ops.Time) × Session
  unfolding play_tracks
  play_between npt_begin npt_end s =
      let (range, tracks) = play_tracks npt_begin npt_end s.tracks s.play_range in
      (range, record s { is_playing = true; play_range = range; tracks = tracks })

  unfoldable pub pause : Session → Session
  pause s = record s { is_playing = false }

  set_times : ops.Time → List ops.Track → List ops.Track
  set_times npt [] = []
  set_times npt (t ∷ ts) = (ops.set_play_time npt t).1 ∷ set_times npt ts

  -- `pause(npt)`
  unfoldable pub pause_at : ops.Time → Session → Session
  unfolding set_times
  pause_at npt s = record s { is_playing = false; tracks = set_times npt s.tracks }

  -- The loop of `tick`: `any_sent || t.send_frames()` does not call it once something was sent.
  pub tick_tracks : Bool → List ops.Track → Outcome (Bool × List ops.Track)
  tick_tracks any_sent [] = done (any_sent, [])
  tick_tracks true (t ∷ ts) = elim (tick_tracks true ts) [
    | threw e (any, ts') ↦ threw e (any, t ∷ ts')
    | done (any, ts') ↦ done (any, t ∷ ts')
  ]
  tick_tracks false (t ∷ ts) = elim (ops.send_frames t) [
    | threw e (_, t') ↦ threw e (false, t' ∷ ts)
    | done (sent, t') ↦ elim (tick_tracks sent ts) [
      | threw e (any, ts') ↦ threw e (any, t' ∷ ts')
      | done (any, ts') ↦ done (any, t' ∷ ts')
    ]
  ]

  unfoldable pub tick : Session → Outcome Session
  unfolding tick_tracks
  tick s =
      if s.is_playing
      then (elim (tick_tracks false s.tracks) [
        | threw e (_, tracks) ↦ threw e (record s { tracks = tracks })
        | done (any_sent, tracks) ↦ done (record s { tracks = tracks; is_playing = any_sent })
      ])
      else done s
