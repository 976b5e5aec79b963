-- ===== src/Server/Loop/Reached.antt =====
-- The threads of the server together: their steps in any order, and what holds in every state that
-- they reach.
use rtp_server.Common.{
  ℕ, false, none, ◌≡◌, ◌≢◌, arith, if◌then◌else◌, ◌==◌, Bytes, Bool-cases, Option-cases, ap, inl,
  inr,
}
use rtp_server.Server.Epoll.{IsOneshot}
use rtp_server.Server.Loop.{Platform, Server, Answers, Pc, waiting, registered, move}
use rtp_server.Server.Loop.Claims.{makes, armed, mapped, IsTidy, IsBacked, AreApart}
use rtp_server.Server.Loop.Changes.{IsPossible, Change}
use rtp_server.Server.Loop.Moves.{move-Change}
use rtp_server.Server.Loop.Apart.{
  AreApart-sym, Change-IsTidy, Change-IsBacked, Change-IsBacked_other, Change-AreApart,
}

-- A thread goes to `p`.
abbrev pub goes_to : ℕ → Pc → (ℕ → Pc) → ℕ → Pc
goes_to i p pc j = if i == j then p else pc j

module _ (g : Platform) where
  pub record System : Type 0 where
    pub pc : ℕ → Pc
    pub server : Server g

  -- A step of thread `i`.
  abbrev pub advance : ℕ → Answers g → System → System
  advance i k y = record {
    pc = goes_to i (move g k (y.pc i) y.server).0 y.pc;
    server = (move g k (y.pc i) y.server).1;
  }

  -- A step, if what the kernel and the handlers do is possible.
  pub data Step (y : System) : System → Type 0 where
    turn : (i : ℕ) (k : Answers g) → IsPossible g k (y.pc i) y.server → Step y (advance i k y)

  pub data Reach (y : System) : System → Type 0 where
    here : Reach y y
    next : {z w : System} → Reach y z → Step z w → Reach y w

  -- All threads wait, and there are no connections yet.
  pub record IsStart (y : System) : Type 0 where
    pub all_wait : (i : ℕ) → y.pc i ≡ waiting
    pub no_connection : (fd : ℕ) → y.server.connections fd ≡ none
    pub none_armed : (fd : ℕ) → armed g y.server fd ≡ false

  pub record IsOrderly (y : System) : Type 0 where
    pub is_tidy : IsTidy g y.server
    pub is_backed : (i : ℕ) → IsBacked g y.server (y.pc i)
    pub are_apart : (i j : ℕ) → i ≢ j → AreApart (y.pc i) (y.pc j)

  unmapped : (y : System) (fd : ℕ) → mapped g y.server fd ≡ false → y.server.connections fd ≡ none
  unmapped y fd e = elim (Option-cases (y.server.connections fd)) [
    | inl f ↦ f
    | inr (c, f) ↦ ground arith
  ]

  IsStart-IsOrderly : (y : System) → IsStart y → IsOrderly y
  IsStart-IsOrderly y h = record {
    is_tidy = record {
      armed_open = λ fd e. ground (arith, h.none_armed fd);
      mapped_open = λ fd e. ground (arith, h.no_connection fd);
    };
    is_backed = λ i. record {
      owned = λ fd e. ground (arith, h.all_wait i);
      made = λ fd e. ground (arith, h.all_wait i);
      used = λ fd e. ground (arith, h.all_wait i);
    };
    are_apart = λ i j d. record {
      owners = λ fd e. ground (arith, h.all_wait i);
      makers = λ fd e. ground (arith, h.all_wait i);
    };
  }

  module _ (once : IsOneshot g.epoll) where
    module _ {y : System} (o : IsOrderly y) (i : ℕ) (k : Answers g)
        (h : IsPossible g k (y.pc i) y.server) where
      changed :
          Change g y.server (y.pc i) (move g k (y.pc i) y.server).1 (move g k (y.pc i) y.server).0
      changed = move-Change g once k (y.pc i) y.server (o.is_backed i).used h

      still-IsBacked : (j : ℕ) → IsBacked g (advance i k y).server ((advance i k y).pc j)
      still-IsBacked j = elim (Bool-cases (i == j)) [
        | inl e ↦ rw e (Change-IsBacked g o.is_tidy (o.is_backed i) changed)
        | inr e ↦ rw e (
            Change-IsBacked_other g o.is_tidy (o.is_backed i) (o.is_backed j)
              (o.are_apart i j (ground arith)) changed)
      ]

      -- The thread that moved, and any other.
      mover-AreApart : (j : ℕ) → i ≢ j → AreApart (move g k (y.pc i) y.server).0 (y.pc j)
      mover-AreApart j d =
          Change-AreApart g o.is_tidy (o.is_backed i) (o.is_backed j) (o.are_apart i j d) changed

      still-AreApart : (j l : ℕ) → j ≢ l → AreApart ((advance i k y).pc j) ((advance i k y).pc l)
      still-AreApart j l d = elim (Bool-cases (i == j)) [
        | inl e ↦ elim (Bool-cases (i == l)) [
          | inl f ↦ absurd (d (ground arith))
          | inr f ↦ rw (e, f) (mover-AreApart l (ground arith))
        ]
        | inr e ↦ elim (Bool-cases (i == l)) [
          | inl f ↦ rw (e, f) (AreApart-sym (mover-AreApart j (ground arith)))
          | inr f ↦ rw (e, f) (o.are_apart j l d)
        ]
      ]

      advance-IsOrderly : IsOrderly (advance i k y)
      advance-IsOrderly = record {
        is_tidy = Change-IsTidy g o.is_tidy (o.is_backed i) changed;
        is_backed = still-IsBacked;
        are_apart = still-AreApart;
      }

    pub Step-IsOrderly : {y z : System} → Step y z → IsOrderly y → IsOrderly z
    Step-IsOrderly (turn i k h) o = advance-IsOrderly o i k h

    -- Where no handler closes an open descriptor of a connection, in every state that the threads
    -- reach from a start, whatever their order: what epoll watches
    -- and what is in the map is open; a descriptor that a thread serves is open, is not armed, and
    -- is served by no other thread; one that a thread brings in is open and not in the map, and no
    -- other thread brings it in; and the connection that a thread has found is in the map.
    pub Reach-IsOrderly : {y z : System} → IsStart y → Reach y z → IsOrderly z
    Reach-IsOrderly {y} st here = IsStart-IsOrderly y st
    Reach-IsOrderly st (next r h) = Step-IsOrderly h (Reach-IsOrderly st r)

    -- Where no handler closes an open descriptor of a connection, in a state that the threads reach
    -- from a start, `insert_or_assign` inserts: the map
    -- has no connection under the descriptor, and the move assignment of a connection is not run.
    pub Reach-inserts :
        {y z : System} (i fd : ℕ) (address : Bytes)
        → IsStart y
        → Reach y z
        → z.pc i ≡ registered fd address
        → z.server.connections fd ≡ none
    Reach-inserts {z} i fd address st r e =
        unmapped z fd (((Reach-IsOrderly st r).is_backed i).made fd (ap makes e)).1
