-- ===== src/Rtp/Track/Open/Moved.antt =====
-- What becomes of the tracks of a session, and of their sockets, when their vector grows.
use rtp_server.Common.{ℕ, ◌≡◌, refl, ap, true, List, [], ◌∷◌, ◌++◌, map, length, All}
use rtp_server.Session.Tracks.{track_ops}
use rtp_server.Rtp.Transport.Construct.Made.{all_given_back, relocate-ports}
use rtp_server.Rtp.Track.{Track}
use rtp_server.Rtp.Track.Open.{Studio, Opening, move_stream, sockets_of, move_tracks, track_opener}
use rtp_server.Dispatch.{grow}

module _ (g : Studio) where
  -- The tracks hold the same sockets, and have lost the frequencies of their streams; the pool has
  -- the ports of the old ones too.
  pub record AreMoved (ts ts' : List (Track g.clock g.av)) (o o' : Opening g) : Type 0 where
    pub same_sockets : map (sockets_of g) ts' ≡ map (sockets_of g) ts
    pub no_frequency : All (λ (t : Track g.clock g.av). t.stream.timestamp_frequency ≡ 0) ts'
    pub given_back :
        o'.shared.ports ≡ o.shared.ports ++ all_given_back g.kernel (map (sockets_of g) ts)

  move : Track g.clock g.av → Track g.clock g.av
  move t = record t { stream = move_stream g t.stream }

  sockets-move :
      (ts : List (Track g.clock g.av)) → map (sockets_of g) (map move ts) ≡ map (sockets_of g) ts
  unfolding move
  sockets-move [] = refl
  sockets-move (t ∷ ts) = ap (◌∷◌ (sockets_of g t)) (sockets-move ts)

  frequency-move :
      (ts : List (Track g.clock g.av))
      → All (λ (t : Track g.clock g.av). t.stream.timestamp_frequency ≡ 0) (map move ts)
  unfolding move move_stream
  frequency-move [] = tt
  frequency-move (t ∷ ts) = (refl, frequency-move ts)

  -- When the vector of a session is full, SETUP gives the ports of the tracks that are there back to
  -- the pool: for each socket whose descriptor is not 0, its port, if it is even and not 0. The
  -- tracks go on with the same sockets, and with timestamps of frequency 0.
  pub grow-AreMoved :
      (rounds packets : ℕ) (ts : List (Track g.clock g.av)) (o : Opening g)
      → g.is_full (length ts) ≡ true
      → let (ts', o') = grow (track_ops g.clock g.av rounds packets) (track_opener g) ts o in
        AreMoved ts ts' o o'
  unfolding grow move_tracks move
  grow-AreMoved rounds packets ts o full =
      rw (grow, full)
        (record {
          same_sockets = sockets-move ts;
          no_frequency = frequency-move ts;
          given_back = relocate-ports g.kernel (map (sockets_of g) ts) o.shared;
        })
