-- ===== src/Start/Tests.antt =====
-- The workers on a machine with eight processors, and the sessions from the start on: a SETUP request
-- makes one, and its worker has a turn.
use rtp_server.Common.{ℕ, ◌+◌, ◌*◌, ◌≡◌, refl, Bytes, codes}
use rtp_server.Start.{workers}
use rtp_server.Session.Store.{use_count}
use rtp_server.Session.Store.Served.{times_found, IsServed}
use rtp_server.Dispatch.Tests.{counters, closed, context, without_session}
use rtp_server.Dispatch.Runs.{Running, request, work, here, next, requested, worked}
use rtp_server.Dispatch.Runs.Kept.{IsSound}
use rtp_server.Start.Reached.{started, Run-started}

eight_processors : workers 8 ≡ (2, 5)
unfolding workers
eight_processors = refl

abbrev set_up : Running counters closed
set_up =
    request counters closed (λ hs. hs) 2 (λ n. n) context
      (record (without_session (codes "rtsp://h/sample/a")) { method = codes "SETUP" })
      (started counters closed 2 0)

abbrev one_turn : Running counters closed
one_turn = work counters closed (λ id. 0) 0 set_up

Run-started_example :
    IsSound counters closed one_turn
    × IsServed counters one_turn.world.store
    × ((holders : Bytes → ℕ) (id : Bytes)
        → use_count counters holders id one_turn.world.store
          ≡ 2 * times_found counters id one_turn.world.store.sessions + holders id)
Run-started_example =
    Run-started counters closed 2 0
      (next (next here (requested (λ hs. hs) 2 (λ n. n) context _)) (worked (λ id. 0) 0))
