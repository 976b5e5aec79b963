-- ===== src/Session/Tick.antt =====
-- Which tracks one tick serves, and what the requests do to it.
use rtp_server.Common.{◌≡◌, refl, true, false, List, [], ◌∷◌, ◌++◌}
use rtp_server.Exception.{done}
use rtp_server.Session.{TrackOps, Session, play, pause, tick_tracks, tick}

module _ (ops : TrackOps) where
  -- Each of these tracks has nothing to send, and becomes the other.
  abbrev pub Idle : List ops.Track → List ops.Track → Type 0
  Idle [] ts' = ts' ≡ []
  Idle (t ∷ ts) [] = ⊥
  Idle (t ∷ ts) (t' ∷ ts') = (ops.send_frames t ≡ done (false, t')) × Idle ts ts'

  -- Once something was sent, no track is asked any more.
  tick_tracks_sent : (ts : List ops.Track) → tick_tracks ops true ts ≡ done (true, ts)
  unfolding tick_tracks
  tick_tracks_sent [] = refl
  tick_tracks_sent (t ∷ ts) = rw (tick_tracks, tick_tracks_sent ts)

  tick_tracks_first :
      (front front' : List ops.Track) (t t' : ops.Track) (behind : List ops.Track)
      → Idle front front'
      → ops.send_frames t ≡ done (true, t')
      → tick_tracks ops false (front ++ t ∷ behind) ≡ done (true, front' ++ t' ∷ behind)
  unfolding tick_tracks
  tick_tracks_first [] front' t t' behind idle e =
      rw (tick_tracks, e, tick_tracks_sent behind, idle)
  tick_tracks_first (x ∷ xs) [] t t' behind idle e = absurd idle
  tick_tracks_first (x ∷ xs) (x' ∷ xs') t t' behind idle e =
      rw (tick_tracks, idle.0, tick_tracks_first xs xs' t t' behind idle.1 e)

  tick_tracks-Idle :
      (ts ts' : List ops.Track) → Idle ts ts' → tick_tracks ops false ts ≡ done (false, ts')
  unfolding tick_tracks
  tick_tracks-Idle [] ts' idle = rw idle
  tick_tracks-Idle (x ∷ xs) [] idle = absurd idle
  tick_tracks-Idle (x ∷ xs) (x' ∷ xs') idle =
      rw (tick_tracks, idle.0, tick_tracks-Idle xs xs' idle.1)

  -- A tick of a session that plays: the tracks in front of the first one that sends are asked, that
  -- one sends, and every track behind it is as it was, whatever it has to send.
  pub tick_lem :
      (s : Session ops) (front front' : List ops.Track) (t t' : ops.Track) (behind : List ops.Track)
      → s.is_playing ≡ true
      → s.tracks ≡ front ++ t ∷ behind
      → Idle front front'
      → ops.send_frames t ≡ done (true, t')
      → tick ops s ≡ done (record s { tracks = front' ++ t' ∷ behind; is_playing = true })
  unfolding tick
  tick_lem s front front' t t' behind plays tracks idle e =
      rw (tick, plays, tracks, tick_tracks_first front front' t t' behind idle e)

  -- When no track has anything to send, a session that plays stops.
  pub tick_stops :
      (s : Session ops) (ts' : List ops.Track)
      → s.is_playing ≡ true
      → Idle s.tracks ts'
      → tick ops s ≡ done (record s { tracks = ts'; is_playing = false })
  unfolding tick
  tick_stops s ts' plays idle = rw (tick, plays, tick_tracks-Idle s.tracks ts' idle)

  -- `play` and then `pause` leave a session that does not play: a tick changes nothing.
  pub tick-pause :
      (s : Session ops) → tick ops (pause ops (play ops s).1) ≡ done (pause ops (play ops s).1)
  unfolding tick pause
  tick-pause s = refl
