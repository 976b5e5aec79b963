-- ===== src/Server/Loop/Lost.antt =====
-- Connections that no thread serves any more, and that are never closed.
use rtp_server.Common.{
  ℕ, Bool, true, false, none, some, ◌≡◌, ◌≢◌, refl, arith, ◌==◌, Bytes, Bool-cases, inl, inr,
}
use rtp_server.Exception.{Error, is_caught, err, done, threw}
use rtp_server.Rtsp.Request.{ready}
use rtp_server.Dispatch.{dispatch}
use rtp_server.Server.{Connection, append_to_message}
use rtp_server.Server.Epoll.{IsOneshot}
use rtp_server.Server.Loop.{
  Platform, Server, Answers, Pc, waiting, registered, looking, received, look_up, process, reply,
  move,
}
use rtp_server.Server.Loop.Claims.{owns, armed}
use rtp_server.Server.Loop.Changes.{
  IsPossible, left_open, Shows, Change, stays, takes, opens, arms, disarms, maps, unmaps,
}
use rtp_server.Server.Loop.Moves.{move-Change}
use rtp_server.Server.Loop.Reached.{
  System, Step, turn, Reach, here, next, IsStart, IsOrderly, advance, Reach-IsOrderly,
  Step-IsOrderly, Reach-inserts,
}

module _ (g : Platform) (once : IsOneshot g.epoll) (fd : ℕ) where
  -- The descriptor is open, epoll reports no event of it, and no thread has it.
  pub record IsLost (y : System g) : Type 0 where
    pub still_open : y.server.is_open fd ≡ true
    pub never_armed : armed g y.server fd ≡ false
    pub no_owner : (j : ℕ) → owns (y.pc j) ≢ some fd

  lost_at :
      {s : Server g} {o a m : ℕ → Bool}
      → Shows g s o a m
      → o fd ≡ true
      → a fd ≡ false
      → (s.is_open fd ≡ true) × (armed g s fd ≡ false)
  lost_at h e f = (ground (arith, h.shows_open fd), ground (arith, h.shows_armed fd))

  -- A change by another thread.
  Change-lost :
      {s s' : Server g} {p p' : Pc}
      → s.is_open fd ≡ true
      → armed g s fd ≡ false
      → owns p ≢ some fd
      → Change g s p s' p'
      → ((s'.is_open fd ≡ true) × (armed g s' fd ≡ false)) × (owns p' ≢ some fd)
  Change-lost o a n (stays k h) = (lost_at h o a, (λ e. n (k.keeps_owned fd e)))
  Change-lost o a n (takes x b e m u h) = (lost_at h o (ground arith), (λ f. ground arith))
  Change-lost o a n (opens x b e m u h) = (lost_at h (ground arith) a, (λ f. ground arith))
  Change-lost o a n (arms x e e' k h) = (lost_at h o (ground arith), (λ f. ground arith))
  Change-lost o a n (disarms x e k h) = (lost_at h o (ground arith), (λ f. n (k.keeps_owned fd f)))
  Change-lost o a n (maps x e e' m u h) = (lost_at h o a, (λ f. ground arith))
  Change-lost o a n (unmaps x e us e' m u h) = (lost_at h (ground arith) a, (λ f. ground arith))

  Step-IsLost : {y z : System g} → IsOrderly g y → Step g y z → IsLost y → IsLost z
  Step-IsLost {y} o (turn i k h) l =
      let c =
        Change-lost l.still_open l.never_armed (l.no_owner i)
          (move-Change g once k (y.pc i) y.server (o.is_backed i).used h) in
      record {
        still_open = c.0.0;
        never_armed = c.0.1;
        no_owner =
            λ j. elim (Bool-cases (i == j)) [ inl e ↦ rw e c.1 | inr e ↦ rw e (l.no_owner j) ];
      }

  Reach-IsLost : {y z : System g} → IsOrderly g y → IsLost y → Reach g y z → IsLost z
  Reach-IsLost {y} o l r = (Reach-both o l r).1
    where
      Reach-both :
          {z : System g} → IsOrderly g y → IsLost y → Reach g y z → IsOrderly g z × IsLost z
      Reach-both o l here = (o, l)
      Reach-both o l (next r st) =
          let (o', l') = Reach-both o l r in (Step-IsOrderly g once st o', Step-IsLost o' st l')

  -- A thread that serves the descriptor drops it.
  drops-IsLost :
      {y : System g} (i : ℕ) (k : Answers g)
      → IsOrderly g y
      → owns (y.pc i) ≡ some fd
      → owns (move g k (y.pc i) y.server).0 ≡ none
      → (move g k (y.pc i) y.server).1.is_open fd ≡ y.server.is_open fd
      → (move g k (y.pc i) y.server).1.epoll ≡ y.server.epoll
      → IsLost (advance g i k y)
  drops-IsLost {y} i k o h n so se = record {
    still_open = rw so ((o.is_backed i).owned fd h).0;
    never_armed = rw (armed, se) ((o.is_backed i).owned fd h).1;
    no_owner = λ j. elim (Bool-cases (i == j)) [
      | inl e ↦ rw e (λ f. ground arith)
      | inr e ↦ rw e ((o.are_apart i j (ground arith)).owners fd h)
    ];
  }

  -- The bytes end in an exception: they cannot be parsed, or the handler of the request throws.
  pub data Throws (k : Answers g) (b : Bytes) (c : Connection) (s : Server g) : Type 0 where
    parser_throws :
        (e : Error) (c' : Connection)
        → append_to_message b c ≡ threw e c'
        → is_caught e ≡ true
        → Throws k b c s
    handler_throws :
        (e : Error) (c' : Connection)
        → append_to_message b c ≡ done c'
        → ready c'.request ≡ true
        → (dispatch g.ops g.opener g.iterate g.tries g.random k.context c'.request s.world).0
          ≡ err e
        → is_caught e ≡ true
        → Throws k b c s

  thrown :
      (k : Answers g) (b : Bytes) (c : Connection) (s : Server g)
      → s.connections fd ≡ some c
      → Throws k b c s
      → IsPossible g k (received fd b) s
      → let (p, s') = move g k (received fd b) s in
        (p ≡ waiting) × ((s'.is_open fd ≡ s.is_open fd) × (s'.epoll ≡ s.epoll))
  unfolding move process reply look_up
  thrown k b c s m (parser_throws e c' h caught) o =
      rw (move, m, process, h, caught) (refl, (refl, refl))
  thrown k b c s m (handler_throws e c' h r d caught) o =
      rw (move, m, process, h, r, d, reply, caught)
        (refl, ((let q = o c fd m in rw (left_open, h, r) at q), refl))

  missed :
      (k : Answers g) (s : Server g)
      → s.connections fd ≡ none
      → let (p, s') = move g k (looking fd) s in
        (p ≡ waiting) × ((s'.is_open fd ≡ s.is_open fd) × (s'.epoll ≡ s.epoll))
  unfolding move look_up
  missed k s m = rw (look_up, m) (refl, (refl, refl))

  -- In a state that the threads reach from a start, the bytes that a thread has received from a
  -- connection end in an exception, and its handler, like every other on the way, closes no open
  -- descriptor of a connection. In every state that is reached from then on the descriptor is
  -- still open, and no thread is given an event of it: the client gets no answer and is not hung up.
  pub thrown-IsLost :
      {y z w : System g} (i : ℕ) (k : Answers g) (b : Bytes) (c : Connection)
      → IsStart g y
      → Reach g y z
      → z.pc i ≡ received fd b
      → z.server.connections fd ≡ some c
      → Throws k b c z.server
      → IsPossible g k (received fd b) z.server
      → Reach g (advance g i k z) w
      → IsLost w
  thrown-IsLost {z} i k b c st r e m t possible r' =
      let o = Reach-IsOrderly g once st r in
      let d = thrown k b c z.server m t possible in
      let l : IsLost (advance g i k z) =
        drops-IsLost i k o (rw e refl) (rw (e, d.0) refl) (rw e d.1.0) (rw e d.1.1) in
      Reach-IsLost (Step-IsOrderly g once (turn i k (rw e possible)) o) l r'

  -- In a state that the threads reach from a start, thread `j` has armed the descriptor of a new
  -- connection and not yet put the connection into the map, and thread `i` already has an event of
  -- it. When thread `i` looks it up first, and no handler closes an open descriptor of a connection,
  -- then in every state that is reached from then on the
  -- descriptor is still open, and no thread is given an event of it.
  pub race-IsLost :
      {y z w : System g} (i j : ℕ) (k : Answers g) (address : Bytes)
      → IsStart g y
      → Reach g y z
      → z.pc i ≡ looking fd
      → z.pc j ≡ registered fd address
      → Reach g (advance g i k z) w
      → IsLost w
  race-IsLost {z} i j k address st r e e' r' =
      let o = Reach-IsOrderly g once st r in
      let m = Reach-inserts g once j fd address st r e' in
      let d = missed k z.server m in
      let l : IsLost (advance g i k z) =
        drops-IsLost i k o (rw e refl) (rw (e, d.0) refl) (rw e d.1.0) (rw e d.1.1) in
      Reach-IsLost (Step-IsOrderly g once (turn i k (rw e tt)) o) l r'
