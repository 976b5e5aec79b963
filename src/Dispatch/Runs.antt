-- ===== src/Dispatch/Runs.antt =====
-- The requests and the workers of the groups together, in any order, on the sessions of
-- src/Server/Session.cpp: a request is what `Server::dispatch` does, and a turn of a worker is one
-- pass of the loop of `Session::Group::watch_streams`.
pub mod Handled
pub mod Kept
pub mod Leak
pub mod Served
mod Tests
use rtp_server.Common.{ℕ, List, [], ◌==◌, Bytes, if◌then◌else◌}
use rtp_server.Session.{TrackOps}
use rtp_server.Session.Store.{Store, pass}
use rtp_server.Session.Store.Frozen.{left_by}
use rtp_server.Rtsp.Headers.{Headers}
use rtp_server.Rtsp.Request.{Request}
use rtp_server.Dispatch.{Context, Opener, World, dispatch}

module _ (ops : TrackOps) (opener : Opener ops.Track) where
  -- The queue `to_remove` of each worker outlives its passes.
  pub record Running : Type 0 where
    pub world : World ops opener
    pub queues : ℕ → List Bytes

  abbrev pub request :
      (Headers → Headers) → ℕ → (ℕ → ℕ) → Context ops.Time → Request → Running → Running
  request iterate tries random c q y = record y {
    world = (dispatch ops opener iterate tries random c q y.world).1;
  }

  -- Worker `i`, while handlers hold `holders` copies of the pointers. An exception ends the pass.
  abbrev pub work : (Bytes → ℕ) → ℕ → Running → Running
  work holders i y =
      let (queue, store) = left_by ops (pass ops holders i (y.queues i) y.world.store) in
      record {
        world = record y.world { store = store };
        queues = λ j. if j == i then queue else y.queues j;
      }

  pub data Move (y : Running) : Running → Type 0 where
    requested :
        (iterate : Headers → Headers) (tries : ℕ) (random : ℕ → ℕ) (c : Context ops.Time)
        (q : Request)
        → Move y (request iterate tries random c q y)
    worked : (holders : Bytes → ℕ) (i : ℕ) → Move y (work holders i y)

  pub data Run (y : Running) : Running → Type 0 where
    here : Run y y
    next : {z w : Running} → Run y z → Move z w → Run y w
