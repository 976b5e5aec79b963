-- ===== src/Server/Loop/Claims.antt =====
-- What a thread of the server holds: a descriptor that it serves alone, one that it brings in.
use rtp_server.Common.{ℕ, Bool, true, false, Option, none, some, ◌≡◌, ◌≢◌}
use rtp_server.Server.Loop.{
  Platform, Server, Pc, accepted, registered, looking, found, received, answered, hung_up, removed,
}

-- The descriptor whose events no other thread is given.
abbrev pub owns : Pc → Option ℕ
owns (accepted fd _) = some fd
owns (looking fd) = some fd
owns (found fd) = some fd
owns (received fd _) = some fd
owns (answered fd) = some fd
owns (hung_up fd) = some fd
owns (removed fd) = some fd
owns _ = none

-- The descriptor that the thread has accepted and not yet put into the map.
abbrev pub makes : Pc → Option ℕ
makes (accepted fd _) = some fd
makes (registered fd _) = some fd
makes _ = none

-- The descriptor whose connection the thread has found.
abbrev pub uses : Pc → Option ℕ
uses (found fd) = some fd
uses (received fd _) = some fd
uses (answered fd) = some fd
uses (hung_up fd) = some fd
uses (removed fd) = some fd
uses _ = none

abbrev pub is_some {ℓ} : {A : Type ℓ} → Option A → Bool
is_some none = false
is_some (some a) = true

-- Two threads that do not get in each other's way.
pub record AreApart (p q : Pc) : Type 0 where
  pub owners : (fd : ℕ) → owns p ≡ some fd → owns q ≢ some fd
  pub makers : (fd : ℕ) → makes p ≡ some fd → makes q ≢ some fd

module _ (g : Platform) where
  abbrev pub armed : Server g → ℕ → Bool
  armed s fd = g.epoll.is_armed s.epoll fd

  abbrev pub mapped : Server g → ℕ → Bool
  mapped s fd = is_some (s.connections fd)

  -- What holds of the shared state itself.
  pub record IsTidy (s : Server g) : Type 0 where
    pub armed_open : (fd : ℕ) → armed s fd ≡ true → s.is_open fd ≡ true
    pub mapped_open : (fd : ℕ) → mapped s fd ≡ true → s.is_open fd ≡ true

  -- What the place of one thread says of the shared state.
  pub record IsBacked (s : Server g) (p : Pc) : Type 0 where
    pub owned : (fd : ℕ) → owns p ≡ some fd → (s.is_open fd ≡ true) × (armed s fd ≡ false)
    pub made : (fd : ℕ) → makes p ≡ some fd → (s.is_open fd ≡ true) × (mapped s fd ≡ false)
    pub used : (fd : ℕ) → uses p ≡ some fd → mapped s fd ≡ true
