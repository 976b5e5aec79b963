-- ===== src/Start/Reached.antt =====
-- What holds from the start of the program on, of its sessions and their workers.
use rtp_server.Common.{ℕ, zero, suc, ◌+◌, ◌*◌, ◌≡◌, refl, arith, [], All, replicate, Bytes}
use rtp_server.Session.{TrackOps}
use rtp_server.Session.Store.{Group, count_id, count_groups, find_session, use_count}
use rtp_server.Session.Store.Served.{times_found, IsServed, use_count-IsServed}
use rtp_server.Dispatch.{Opener}
use rtp_server.Dispatch.Runs.{Running, Run}
use rtp_server.Dispatch.Runs.Kept.{IsSound, Run-IsSound}
use rtp_server.Dispatch.Runs.Served.{Run-IsServed}
use rtp_server.Start.{start_store}

abbrev empty_group : Group
empty_group = record { sessions = []; newly_added = [] }

count_groups-replicate : (id : Bytes) (n : ℕ) → count_groups id (replicate n empty_group) ≡ 0
unfolding count_groups count_id
count_groups-replicate id zero = refl
count_groups-replicate id (suc n) = omega (arith, count_groups-replicate id n)

All-replicate {ℓ κ} : {A : Type ℓ} (P : A → Type κ) (a : A) (n : ℕ) → P a → All P (replicate n a)
All-replicate P a zero h = tt
All-replicate P a (suc n) h = (h, All-replicate P a n h)

module _ (ops : TrackOps) (opener : Opener ops.Track) where
  -- The start, with a number of workers.
  abbrev pub started : ℕ → opener.State → Running ops opener
  started worker_count files = record {
    world = record { store = start_store ops worker_count; drawn = 0; files = files };
    queues = λ i. [];
  }

  started-IsSound : (n : ℕ) (files : opener.State) → IsSound ops opener (started n files)
  started-IsSound n files = record {
    is_linked = All-replicate _ empty_group n (tt, tt);
    none_queued = λ i. refl;
  }

  started-IsServed : (n : ℕ) (files : opener.State) → IsServed ops (started n files).world.store
  unfolding find_session
  started-IsServed n files = λ id. count_groups-replicate id n

  -- From the start of the program on, whatever is requested and however the workers take their turns:
  -- every pointer of a group is to a session of the map, and no worker has anything to remove; the
  -- groups hold exactly one pointer to each session of the map, and none to another, so that one
  -- worker alone serves it; and the count of the pointers to a session of the map is 2 and the copies
  -- that handlers hold.
  pub Run-started :
      {z : Running ops opener} (worker_count : ℕ) (files : opener.State)
      → Run ops opener (started worker_count files) z
      → IsSound ops opener z
        × IsServed ops z.world.store
        × ((holders : Bytes → ℕ) (id : Bytes)
            → use_count ops holders id z.world.store
              ≡ 2 * times_found ops id z.world.store.sessions + holders id)
  Run-started {z = z} worker_count files r =
      let served : IsServed ops z.world.store =
        Run-IsServed ops opener (started-IsSound worker_count files) r
          (started-IsServed worker_count files) in
      (
        Run-IsSound ops opener (started-IsSound worker_count files) r,
        served,
        λ holders id. use_count-IsServed ops holders id z.world.store served,
      )
