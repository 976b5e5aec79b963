-- ===== src/Dispatch/Runs/Tests.antt =====
-- The theorems on runs: a session is torn down, then its worker has a turn, and a client asks it to
-- pause.
use rtp_server.Common.{ℕ, ◌≤◌, ◌≡◌, refl, some, [], arith, Bytes, codes, bytes_eq}
use rtp_server.Exception.{bad_session, ok, err}
use rtp_server.Rtsp.Headers.{lookup}
use rtp_server.Rtsp.Request.{Request, get_header}
use rtp_server.Rtsp.Response.{empty_response}
use rtp_server.Session.{new_session, teardown}
use rtp_server.Session.Store.{find_session, get_session, count_id, count_groups, use_count}
use rtp_server.Dispatch.{handle_play, handle_pause, handle_teardown}
use rtp_server.Dispatch.Tests.{counters, closed, world, context, asking}
use rtp_server.Dispatch.Runs.{Running, request, work, Run, here, next, requested, worked}
use rtp_server.Dispatch.Runs.Kept.{IsSound, teardown-IsFinal}
use rtp_server.Dispatch.Runs.Leak.{Run-use_count}

abbrev running : Running counters closed
running = record { world = world; queues = λ i. [] }

abbrev no_copies : Bytes → ℕ
no_copies id = 0

abbrev asking_to : Bytes → Request
asking_to method = record (asking []) { method = method }

abbrev ask : Bytes → Running counters closed → Running counters closed
ask method y = request counters closed (λ hs. hs) 2 (λ n. n) context (asking_to method) y

abbrev turn : Running counters closed → Running counters closed
turn y = work counters closed no_copies 0 y

asked :
    {y z : Running counters closed} (method : Bytes)
    → Run counters closed y z
    → Run counters closed y (ask method z)
asked method r = next r (requested (λ hs. hs) 2 (λ n. n) context (asking_to method))

turned : {y z : Running counters closed} → Run counters closed y z → Run counters closed y (turn z)
turned r = next r (worked no_copies 0)

running-IsSound : IsSound counters closed running
unfolding find_session bytes_eq
running-IsSound = record {
  is_linked = ((tt, ((new_session counters (codes "A"), refl), tt)), tt);
  none_queued = λ i. refl;
}

Run-use_count_example :
    let z = turn (turn (ask (codes "TEARDOWN") running)) in
    (1 ≤ count_groups (codes "A") z.world.store.groups)
    × ((holders : Bytes → ℕ) → 2 ≤ use_count counters holders (codes "A") z.world.store)
unfolding count_groups count_id bytes_eq
Run-use_count_example =
    Run-use_count counters closed (codes "A") running-IsSound (omega arith)
      (turned (turned (asked (codes "TEARDOWN") here)))

teardown-IsFinal_example :
    let y = record running { world = (handle_teardown counters closed (asking []) world).1 } in
    let z = ask (codes "PAUSE") (turn y) in
    ((handle_teardown counters closed (asking []) world).0 ≡ ok empty_response)
    × (find_session counters (get_header (codes "session") (asking [])) z.world.store.sessions
        ≡ some (teardown counters (new_session counters (codes "A"))))
    × ((q : Request)
        → get_header (codes "session") q ≡ get_header (codes "session") (asking [])
        → (handle_play counters closed context q z.world ≡ (err bad_session, z.world))
          × (handle_pause counters closed (codes "today") q z.world ≡ (err bad_session, z.world))
          × (handle_teardown counters closed q z.world ≡ (err bad_session, z.world)))
unfolding get_header lookup get_session find_session bytes_eq
teardown-IsFinal_example =
    teardown-IsFinal counters closed context (asking []) running _
      (new_session counters (codes "A")) refl (asked (codes "PAUSE") (turned here))
