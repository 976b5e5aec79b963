-- ===== src/Start.antt =====
-- The start of the program: the numbers of workers in `main` of src/main.cpp, and the groups that
-- `Session::watch_streams` of src/Server/Session.cpp makes for them.
pub mod Loader
pub mod Reached
mod Tests
use rtp_server.Common.{
  ℕ, ◌+◌, ◌-◌, ◌%◌, ◌^◌, ◌<◌, ◌≡◌, refl, arith, inl, inr, [], ◌∷◌, ltb, ◌==◌, if◌then◌else◌,
  Bool-cases, replicate, Bytes, ◌⊎◌, ap, ◌∙◌, sym,
}
use rtp_server.Exception.{Result, ok}
use rtp_server.Session.{TrackOps, Session, new_session}
use rtp_server.Session.Store.{Group, Store, least_from, add_session, insert_session}

-- The workers for sessions and for the server, from `hardware_concurrency`, an `unsigned`.
unfoldable pub workers : ℕ → ℕ × ℕ
workers concurrency =
    let server_workers = (concurrency + 2 ^ 32 - 1 - 2) % 2 ^ 32 in
    if ltb server_workers 1 then (1, 0) else (2, server_workers)

-- The threads that run then; the main thread serves too.
abbrev pub threads : ℕ × ℕ → ℕ
threads w = w.0 + w.1 + 1

module _ (ops : TrackOps) where
  -- One empty group for each worker, and no sessions.
  abbrev pub start_store : ℕ → Store ops
  start_store worker_count = record {
    sessions = [];
    groups = replicate worker_count (record { sessions = []; newly_added = [] });
  }

-- With more than two processors, as many threads run as there are processors, but two at least where
-- there are three; one or two of them watch sessions. With two or fewer (0 where their number is not
-- known), the subtraction wraps around: the server is given 2 ^ 32 less one to three workers.
pub threads-workers :
    (concurrency : ℕ)
    → concurrency < 2 ^ 32
    → threads (workers concurrency) ≡ (
        if ltb concurrency 3
        then 2 ^ 32 + concurrency
        else if concurrency == 3
        then 2
        else concurrency)
unfolding workers
threads-workers concurrency h = ground arith

two_groups : (concurrency : ℕ) → ((workers concurrency).0 ≡ 1) ⊎ ((workers concurrency).0 ≡ 2)
unfolding workers
two_groups concurrency = elim (Bool-cases (ltb ((concurrency + 2 ^ 32 - 1 - 2) % 2 ^ 32) 1)) [
  | inl e ↦ rw (workers, e) (inl refl)
  | inr e ↦ rw (workers, e) (inr refl)
]

-- However many processors there are, a first session finds a group: it is put into the map and
-- handed to the first of the groups.
pub insert_session-start_store :
    (ops : TrackOps) (concurrency : ℕ) (id : Bytes)
    → insert_session ops id (start_store ops (workers concurrency).0)
      ≡ ok (record {
        sessions = (id, new_session ops id) ∷ [];
        groups =
            record { sessions = []; newly_added = id ∷ [] }
            ∷ replicate ((workers concurrency).0 - 1) (record { sessions = []; newly_added = [] });
      })
unfolding insert_session
insert_session-start_store ops concurrency id = elim (two_groups concurrency) [
  | inl e ↦ rw e refl
  | inr e ↦ rw e refl
]
