-- ===== src/Session/Tests.antt =====
-- The theorems on sessions with tracks that count the frames left to them.
use rtp_server.Common.{
  ℕ, zero, suc, ◌≡◌, refl, Bool, true, false, [], ◌∷◌, arith, ◌==◌, Bytes, codes, bytes_eq,
}
use rtp_server.Exception.{ok, Outcome, done}
use rtp_server.Session.{TrackOps, Session, new_session, teardown, tick, pause_at, play_between}
use rtp_server.Session.Played.{play_between_lem}
use rtp_server.Session.Tick.{tick_lem}
use rtp_server.Session.Store.{generate_id, find_session, Store, create_session, pass}
use rtp_server.Session.Store.Created.{IsCreated, create_session-IsCreated}
use rtp_server.Session.Store.Kept.{IsLinked}
use rtp_server.Session.Store.Passes.{PassKeeps, pass-PassKeeps}

abbrev send_count : ℕ → Outcome (Bool × ℕ)
send_count zero = done (false, 0)
send_count (suc n) = done (true, n)

abbrev counters : TrackOps
counters = record {
  Time = ℕ;
  zero_time = 0;
  is_zero = λ t. t == 0;
  Track = ℕ;
  send_frames = send_count;
  set_play_time = λ npt t. (npt, t);
  set_play_range_end = λ npt t. (npt, t);
}

abbrev playing : Session counters
playing = record (new_session counters (codes "A")) { tracks = 0 ∷ 2 ∷ 3 ∷ []; is_playing = true }

tick_example :
    tick counters playing ≡ done (record playing { tracks = 0 ∷ 1 ∷ 3 ∷ []; is_playing = true })
tick_example = tick_lem counters playing (0 ∷ []) (0 ∷ []) 2 1 (3 ∷ []) refl refl (refl, refl) refl

-- One session, torn down, in the first of two groups.
abbrev one_session : Store counters
one_session = record {
  sessions = (codes "A", teardown counters playing) ∷ [];
  groups =
      record { sessions = codes "A" ∷ []; newly_added = [] }
      ∷ record { sessions = []; newly_added = [] }
      ∷ [];
}

one_session-IsLinked : IsLinked counters one_session
unfolding find_session bytes_eq
one_session-IsLinked = ((((teardown counters playing, refl), tt), tt), ((tt, tt), tt))

create_session-IsCreated_example :
    (id : Bytes) × (m : ℕ) × (st' : Store counters) × (create_session counters 3
        (λ n. n)
        0
        one_session
      ≡ ok ((id, m), st'))
    × IsCreated counters id one_session st'
unfolding find_session bytes_eq generate_id
create_session-IsCreated_example =
    create_session-IsCreated counters 3 (λ n. n) 0 1 one_session
      (record { sessions = codes "A" ∷ []; newly_added = [] })
      (record { sessions = []; newly_added = [] } ∷ []) refl one_session-IsLinked (omega arith) refl

pass_example :
    PassKeeps counters 0
      (record { sessions = codes "A" ∷ []; newly_added = [] })
      one_session
      (pass counters (λ id. 0) 0 [] one_session)
pass_example =
    pass-PassKeeps counters (λ id. 0) 0 (record { sessions = codes "A" ∷ []; newly_added = [] })
      one_session refl one_session-IsLinked

play_example : play_between counters 3 0 playing ≡ ((3, 0), record playing { play_range = (3, 0) })
play_example =
    play_between_lem counters (record { time_given = λ npt t. refl; end_given = λ npt t. refl }) 3 0
      playing

paused_at :
    pause_at counters 5 playing ≡ record playing { is_playing = false; tracks = playing.tracks }
unfolding pause_at
paused_at = refl
