-- ===== src/Server/Loop/Changes.antt =====
-- What a step of a thread changes, as far as the ownership of descriptors is concerned.
use rtp_server.Common.{
  ℕ, Bool, true, false, none, some, ◌≡◌, if◌then◌else◌, ◌==◌, ◌||◌, ◌&&◌, Bytes,
}
use rtp_server.Exception.{done, threw}
use rtp_server.Rtsp.Request.{ready}
use rtp_server.Dispatch.{dispatch}
use rtp_server.Server.{Connection, append_to_message}
use rtp_server.Server.Loop.{
  Platform, Server, Answers, event, accepted_from, Pc, waiting, accepting, received,
}
use rtp_server.Server.Loop.Claims.{owns, makes, uses, armed, mapped}

abbrev pub at_fd : ℕ → Bool → (ℕ → Bool) → ℕ → Bool
at_fd fd b f x = if fd == x then b else f x

module _ (g : Platform) where
  -- The descriptors that are open behind the bytes `b` of a connection: those that its handler, if
  -- there is one, leaves open.
  abbrev pub left_open : Answers g → Bytes → Connection → Server g → ℕ → Bool
  left_open k b c s x = elim (append_to_message b c) [
    | threw e c' ↦ s.is_open x
    | done c' ↦
        let w =
          (dispatch g.ops g.opener g.iterate g.tries g.random k.context c'.request s.world).1 in
        if ready c'.request
        then s.is_open x && g.stays_open s.world.files w.files x
        else s.is_open x
  ]

  -- Epoll returns an event of a connection only where it is armed, `accept` returns a descriptor
  -- that is not open, and a handler closes no open descriptor of a connection.
  abbrev pub IsPossible : Answers g → Pc → Server g → Type 0
  IsPossible k waiting s =
      (fd : ℕ)
      → k.wait ≡ event fd
      → (fd == g.interrupt_fd || (fd == g.listener_socket || armed g s fd)) ≡ true
  IsPossible k accepting s =
      (fd : ℕ) (address : Bytes) → k.accept ≡ accepted_from fd address → s.is_open fd ≡ false
  IsPossible k (received fd b) s =
      (c : Connection) (x : ℕ) → s.connections fd ≡ some c → left_open k b c s x ≡ s.is_open x
  IsPossible k _ s = Unit

  -- The three maps of the shared state.
  pub record Shows (s : Server g) (opened arms maps : ℕ → Bool) : Type 0 where
    pub shows_open : (x : ℕ) → s.is_open x ≡ opened x
    pub shows_armed : (x : ℕ) → armed g s x ≡ arms x
    pub shows_mapped : (x : ℕ) → mapped g s x ≡ maps x

  -- What a thread holds behind a step it held before.
  pub record Keeps (s : Server g) (p p' : Pc) : Type 0 where
    pub keeps_owned : (fd : ℕ) → owns p' ≡ some fd → owns p ≡ some fd
    pub keeps_made : (fd : ℕ) → makes p' ≡ some fd → makes p ≡ some fd
    pub keeps_used : (fd : ℕ) → uses p' ≡ some fd → mapped g s fd ≡ true

  -- Between `s` and `s'` a thread goes from `p` to `p'`.
  pub data Change (s : Server g) (p : Pc) (s' : Server g) (p' : Pc) : Type 0 where
    stays : Keeps s p p' → Shows s' s.is_open (armed g s) (mapped g s) → Change s p s' p'
    takes :
        (fd : ℕ)
        → armed g s fd ≡ true
        → owns p' ≡ some fd
        → makes p' ≡ none
        → uses p' ≡ none
        → Shows s' s.is_open (at_fd fd false (armed g s)) (mapped g s)
        → Change s p s' p'
    opens :
        (fd : ℕ)
        → s.is_open fd ≡ false
        → owns p' ≡ some fd
        → makes p' ≡ some fd
        → uses p' ≡ none
        → Shows s' (at_fd fd true s.is_open) (armed g s) (mapped g s)
        → Change s p s' p'
    arms :
        (fd : ℕ)
        → owns p ≡ some fd
        → owns p' ≡ none
        → Keeps s p p'
        → Shows s' s.is_open (at_fd fd true (armed g s)) (mapped g s)
        → Change s p s' p'
    disarms :
        (fd : ℕ)
        → owns p ≡ some fd
        → Keeps s p p'
        → Shows s' s.is_open (at_fd fd false (armed g s)) (mapped g s)
        → Change s p s' p'
    maps :
        (fd : ℕ)
        → makes p ≡ some fd
        → owns p' ≡ none
        → makes p' ≡ none
        → uses p' ≡ none
        → Shows s' s.is_open (armed g s) (at_fd fd true (mapped g s))
        → Change s p s' p'
    unmaps :
        (fd : ℕ)
        → owns p ≡ some fd
        → uses p ≡ some fd
        → owns p' ≡ none
        → makes p' ≡ none
        → uses p' ≡ none
        → Shows s' (at_fd fd false s.is_open) (armed g s) (at_fd fd false (mapped g s))
        → Change s p s' p'
