-- ===== src/Dispatch/Runs/Served.antt =====
-- That the requests and the workers leave each session with exactly one worker.
use rtp_server.Common.{sym, ◌∙◌, []}
use rtp_server.Session.{TrackOps}
use rtp_server.Session.Store.Served.{IsServed, Writes-IsServed, pass-times_found}
use rtp_server.Dispatch.{Opener}
use rtp_server.Dispatch.Runs.{Running, Move, requested, worked, Run, here, next}
use rtp_server.Dispatch.Runs.Handled.{dispatch-Writes}
use rtp_server.Dispatch.Runs.Kept.{IsSound, Run-IsSound}
use rtp_server.Dispatch.Runs.Leak.{pass-count_groups}

module _ (ops : TrackOps) (opener : Opener ops.Track) where
  Move-IsServed :
      {y z : Running ops opener}
      → IsSound ops opener y
      → Move ops opener y z
      → IsServed ops y.world.store
      → IsServed ops z.world.store
  Move-IsServed {y = y} h (requested iterate tries random c q) served =
      Writes-IsServed ops (dispatch-Writes ops opener iterate tries random c q y.world) served
  Move-IsServed {y = y} h (worked holders i) served = λ id. rw (h.none_queued i) (
      sym (pass-count_groups ops opener id holders i y.world.store h.is_linked)
      ∙ (served id ∙ sym (pass-times_found ops id holders i [] y.world.store)))

  pub Run-IsServed :
      {y z : Running ops opener}
      → IsSound ops opener y
      → Run ops opener y z
      → IsServed ops y.world.store
      → IsServed ops z.world.store
  Run-IsServed h here served = served
  Run-IsServed h (next r m) served =
      Move-IsServed (Run-IsSound ops opener h r) m (Run-IsServed h r served)
