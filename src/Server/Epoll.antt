-- ===== src/Server/Epoll.antt =====
-- The calls of epoll that `Server::serve` of src/Server/Server.cpp makes for the descriptors of
-- connections, all of them with EPOLLONESHOT.
use rtp_server.Common.{ℕ, Bool, true, false, Option, some, ◌==◌, ◌≡◌, if◌then◌else◌}

-- `add`, `rearm` and `remove` are EPOLL_CTL_ADD, MOD and DEL: `none` is -1. `report` is what a wait
-- that returns an event of a descriptor leaves. `is_armed` says whether an event can be returned.
pub record Epoll : Type 1 where
  pub State : Type 0
  pub add : ℕ → State → Option State
  pub rearm : ℕ → State → Option State
  pub remove : ℕ → State → Option State
  pub report : ℕ → State → State
  pub is_armed : State → ℕ → Bool

-- The documented effect of each call on what is armed.
pub record IsOneshot (e : Epoll) : Type 0 where
  pub armed_add :
      (fd x : ℕ) (s t : e.State)
      → e.add fd s ≡ some t
      → e.is_armed t x ≡ (if fd == x then true else e.is_armed s x)
  pub armed_rearm :
      (fd x : ℕ) (s t : e.State)
      → e.rearm fd s ≡ some t
      → e.is_armed t x ≡ (if fd == x then true else e.is_armed s x)
  pub armed_remove :
      (fd x : ℕ) (s t : e.State)
      → e.remove fd s ≡ some t
      → e.is_armed t x ≡ (if fd == x then false else e.is_armed s x)
  pub armed_report :
      (fd x : ℕ) (s : e.State)
      → e.is_armed (e.report fd s) x ≡ (if fd == x then false else e.is_armed s x)
