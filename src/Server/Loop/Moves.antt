-- ===== src/Server/Loop/Moves.antt =====
-- A step of a thread is one of the changes of rtp_server.Server.Loop.Changes.
use rtp_server.Common.{
  ℕ, Bool, true, false, Option, none, some, ◌≡◌, refl, arith, sym, subst, ap, ◌∷◌, if◌then◌else◌,
  ◌==◌, ◌||◌, Bool-cases, Option-cases, inl, inr, Bytes,
}
use rtp_server.Exception.{Error, is_caught, Result, ok, err, Outcome-cases}
use rtp_server.Rtsp.Request.{ready}
use rtp_server.Dispatch.{World, dispatch}
use rtp_server.Rtsp.Response.{Response, get_data}
use rtp_server.Server.{Connection, new_connection, clear_message, append_to_message}
use rtp_server.Server.Epoll.{IsOneshot}
use rtp_server.Server.Loop.{
  Platform, Server, Answers, Waited, interrupted, wait_failed, event, Accepted, again,
  accept_failed, accepted_from, Received, recv_failed, shut_down, bytes, Pc, waiting, accepting,
  returned, exited, undefined, accepted, registered, looking, found, received, answered, hung_up,
  removed, erased, on_wait, on_accept, control, look_up, on_recv, reply, process, erase, move, put,
  handled, behind,
}
use rtp_server.Server.Loop.Changes.{
  IsPossible, left_open, Shows, Keeps, Change, stays, takes, opens, arms, disarms, maps, unmaps,
}
use rtp_server.Server.Loop.Claims.{owns, makes, uses, is_some, armed, mapped}

module _ (g : Platform) where
  same : (s : Server g) → Shows g s s.is_open (armed g s) (mapped g s)
  same s = record { shows_open = λ x. refl; shows_armed = λ x. refl; shows_mapped = λ x. refl }

  rest :
      (s : Server g) (p p' : Pc)
      → owns p' ≡ none
      → makes p' ≡ none
      → uses p' ≡ none
      → Keeps g s p p'
  rest s p p' o m u = record {
    keeps_owned = λ fd e. ground arith;
    keeps_made = λ fd e. ground arith;
    keeps_used = λ fd e. ground arith;
  }

  stays_at_rest :
      (s s' : Server g) (p p' : Pc)
      → owns p' ≡ none
      → makes p' ≡ none
      → uses p' ≡ none
      → Shows g s' s.is_open (armed g s) (mapped g s)
      → Change g s p s' p'
  stays_at_rest s s' p p' o m u sh = stays (rest s p p' o m u) sh

  on_wait-Change :
      (once : IsOneshot g.epoll) (w : Waited) (s : Server g)
      → ((fd : ℕ)
          → w ≡ event fd
          → (fd == g.interrupt_fd || (fd == g.listener_socket || armed g s fd)) ≡ true)
      → Change g s waiting (on_wait g w s).1 (on_wait g w s).0
  unfolding on_wait
  on_wait-Change once interrupted s h = stays_at_rest s _ waiting returned refl refl refl (same _)
  on_wait-Change once wait_failed s h = stays_at_rest s _ waiting exited refl refl refl (same s)
  on_wait-Change once (event fd) s h = elim (Bool-cases (fd == g.interrupt_fd)) [
    | inl e ↦ rw e (stays_at_rest s s waiting returned refl refl refl (same s))
    | inr e ↦ elim (Bool-cases (fd == g.listener_socket)) [
      | inl l ↦ rw (e, l) (stays_at_rest s s waiting accepting refl refl refl (same s))
      | inr l ↦
          rw (e, l)
            (takes fd (ground (arith, h fd refl)) refl refl refl (record {
              shows_open = λ x. refl;
              shows_armed = λ x. once.armed_report fd x s.epoll;
              shows_mapped = λ x. refl;
            }))
    ]
  ]

  on_accept-Change :
      (a : Accepted) (s : Server g)
      → ((fd : ℕ) (address : Bytes) → a ≡ accepted_from fd address → s.is_open fd ≡ false)
      → Change g s accepting (on_accept g a s).1 (on_accept g a s).0
  unfolding on_accept
  on_accept-Change again s h = stays_at_rest s s accepting waiting refl refl refl (same s)
  on_accept-Change accept_failed s h = stays_at_rest s s accepting returned refl refl refl (same s)
  on_accept-Change (accepted_from fd address) s h =
      opens fd (h fd address refl) refl refl refl
        (record { shows_open = λ x. refl; shows_armed = λ x. refl; shows_mapped = λ x. refl })

  -- A call of `epoll_ctl` that sets one descriptor to `b`, or ends the process.
  control-Change :
      (p next : Pc) (s : Server g) (o : Option g.epoll.State)
      → ((t : g.epoll.State) → o ≡ some t → Change g s p (record s { epoll = t }) next)
      → Change g s p (control g o next s).1 (control g o next s).0
  unfolding control
  control-Change p next s none h = stays_at_rest s s p exited refl refl refl (same s)
  control-Change p next s (some t) h = h t refl

  -- A thread that serves a descriptor goes on with it.
  holds_on :
      (s : Server g) (p p' : Pc) (fd : ℕ)
      → owns p ≡ some fd
      → owns p' ≡ some fd
      → makes p' ≡ none
      → uses p' ≡ some fd
      → mapped g s fd ≡ true
      → Keeps g s p p'
  holds_on s p p' fd o o' m u h = record {
    keeps_owned = λ x e. ground arith;
    keeps_made = λ x e. ground arith;
    keeps_used = λ x e. ground arith;
  }

  is_some_put :
      (fd x : ℕ) (c : Connection) (f : ℕ → Option Connection)
      → is_some (f fd) ≡ true
      → is_some (if fd == x then some c else f x) ≡ is_some (f x)
  is_some_put fd x c f m = elim (Bool-cases (fd == x)) [
    | inl e ↦ let q : fd ≡ x = ground arith in rw e (sym (subst (λ y. is_some (f y) ≡ true) q m))
    | inr e ↦ rw e refl
  ]

  is_some_if :
      (b : Bool) (x y : Option Connection)
      → is_some (if b then x else y) ≡ (if b then is_some x else is_some y)
  is_some_if true x y = refl
  is_some_if false x y = refl

  -- A connection that is in the map is put in its place.
  put-Shows :
      (fd : ℕ) (c : Connection) (s s' : Server g)
      → mapped g s fd ≡ true
      → s'.connections ≡ s.connections
      → s'.epoll ≡ s.epoll
      → ((x : ℕ) → s'.is_open x ≡ s.is_open x)
      → Shows g (put g fd c s') s.is_open (armed g s) (mapped g s)
  put-Shows fd c s s' m same_map same_epoll o = record {
    shows_open = o;
    shows_armed = λ x. ap (λ t. g.epoll.is_armed t x) same_epoll;
    shows_mapped = λ x. rw same_map (is_some_put fd x c s.connections m);
  }

  on_recv-Change :
      (fd : ℕ) (r : Received) (s : Server g)
      → mapped g s fd ≡ true
      → Change g s (found fd) (on_recv g fd r s).1 (on_recv g fd r s).0
  unfolding on_recv
  on_recv-Change fd recv_failed s m = stays_at_rest s s (found fd) exited refl refl refl (same s)
  on_recv-Change fd shut_down s m =
      stays (holds_on s (found fd) (hung_up fd) fd refl refl refl refl m) (same s)
  on_recv-Change fd (bytes b) s m =
      stays (holds_on s (found fd) (received fd b) fd refl refl refl refl m) (same s)

  -- Behind an exception, or what is none.
  thrown-Change :
      (e : Error) (p : Pc) (s s' : Server g)
      → Shows g s' s.is_open (armed g s) (mapped g s)
      → Change g s p s' (behind g e)
  thrown-Change e p s s' sh = elim (Bool-cases (is_caught e)) [
    | inl caught ↦ rw caught (stays_at_rest s s' p waiting refl refl refl sh)
    | inr broken ↦ rw broken (stays_at_rest s s' p undefined refl refl refl sh)
  ]

  reply-Change :
      (fd : ℕ) (b : Bytes) (sends : Bool) (c : Connection) (r : Result Response)
      (w : World g.ops g.opener) (s : Server g)
      → mapped g s fd ≡ true
      → ((x : ℕ) → (handled g w s).is_open x ≡ s.is_open x)
      → Change g s (received fd b) (reply g fd sends c r w s).1 (reply g fd sends c r w s).0
  unfolding reply
  reply-Change fd b sends c (err e) w s m o =
      thrown-Change e (received fd b) s _ (put-Shows fd c s (handled g w s) m refl refl o)
  reply-Change fd b false c (ok r) w s m o =
      stays_at_rest s _ (received fd b) exited refl refl refl
        (put-Shows fd c s (handled g w s) m refl refl o)
  reply-Change fd b true c (ok r) w s m o =
      stays (holds_on s (received fd b) (answered fd) fd refl refl refl refl m) (
        put-Shows fd (clear_message c) s
          (record (handled g w s) { sent = (fd, get_data r) ∷ s.sent }) m refl refl o)

  process-Change :
      (k : Answers g) (fd : ℕ) (b : Bytes) (c : Connection) (s : Server g)
      → mapped g s fd ≡ true
      → ((x : ℕ) → left_open g k b c s x ≡ s.is_open x)
      → Change g s (received fd b) (process g k fd b c s).1 (process g k fd b c s).0
  unfolding process
  process-Change k fd b c s m o = elim (Outcome-cases (append_to_message b c)) [
    | inr (e, c', thrown) ↦
        rw (process, thrown)
          (thrown-Change e (received fd b) s _ (put-Shows fd c' s s m refl refl (λ x. refl)))
    | inl (c', read) ↦ elim (Bool-cases (ready c'.request)) [
      | inl whole ↦
          let (r, w) =
            dispatch g.ops g.opener g.iterate g.tries g.random k.context c'.request s.world in
          rw (process, read, whole)
            (reply-Change fd b k.send_succeeds c' r w s m
              (λ x. let q = o x in rw (left_open, read, whole) at q))
      | inr more ↦
          rw (process, read, more)
            (stays (holds_on s (received fd b) (answered fd) fd refl refl refl refl m)
              (put-Shows fd c' s s m refl refl (λ x. refl)))
    ]
  ]

  -- A step of a thread is one of these changes, if the kernel's answer is possible.
  pub move-Change :
      (once : IsOneshot g.epoll) (k : Answers g) (p : Pc) (s : Server g)
      → ((fd : ℕ) → uses p ≡ some fd → mapped g s fd ≡ true)
      → IsPossible g k p s
      → Change g s p (move g k p s).1 (move g k p s).0
  unfolding move on_wait on_accept control look_up on_recv reply process erase
  move-Change once k waiting s u h = on_wait-Change once k.wait s h
  move-Change once k accepting s u h = on_accept-Change k.accept s h
  move-Change once k returned s u h = stays_at_rest s s returned returned refl refl refl (same s)
  move-Change once k exited s u h = stays_at_rest s s exited exited refl refl refl (same s)
  move-Change once k undefined s u h = stays_at_rest s s undefined undefined refl refl refl (same s)
  move-Change once k (accepted fd address) s u h =
      control-Change _ (registered fd address) s _ (λ t e.
        arms fd refl refl
          (record {
            keeps_owned = λ x e. ground arith;
            keeps_made = λ x e. e;
            keeps_used = λ x e. ground arith;
          })
          (record {
            shows_open = λ x. refl;
            shows_armed = λ x. once.armed_add fd x s.epoll t e;
            shows_mapped = λ x. refl;
          }))
  move-Change once k (registered fd address) s u h = maps fd refl refl refl refl (record {
    shows_open = λ x. refl;
    shows_armed = λ x. refl;
    shows_mapped = λ x. is_some_if (fd == x) (some (new_connection address)) (s.connections x);
  })
  move-Change once k (looking fd) s u h = elim (Option-cases (s.connections fd)) [
    | inl e ↦ rw (look_up, e) (stays_at_rest s s (looking fd) waiting refl refl refl (same s))
    | inr (c, e) ↦
        rw (look_up, e)
          (stays (holds_on s (looking fd) (found fd) fd refl refl refl refl (ap is_some e))
            (same s))
  ]
  move-Change once k (found fd) s u h = on_recv-Change fd k.recv s (u fd refl)
  move-Change once k (received fd b) s u h = elim (Option-cases (s.connections fd)) [
    | inl e ↦ rw (move, e) (stays_at_rest s s (received fd b) undefined refl refl refl (same s))
    | inr (c, e) ↦ rw (move, e) (process-Change k fd b c s (u fd refl) (λ x. h c x e))
  ]
  move-Change once k (answered fd) s u h = control-Change (answered fd) waiting s _ (λ t e.
      arms fd refl refl (rest s (answered fd) waiting refl refl refl) (record {
        shows_open = λ x. refl;
        shows_armed = λ x. once.armed_rearm fd x s.epoll t e;
        shows_mapped = λ x. refl;
      }))
  move-Change once k (hung_up fd) s u h = control-Change (hung_up fd) (removed fd) s _ (λ t e.
      disarms fd refl (holds_on s (hung_up fd) (removed fd) fd refl refl refl refl (u fd refl))
        (record {
          shows_open = λ x. refl;
          shows_armed = λ x. once.armed_remove fd x s.epoll t e;
          shows_mapped = λ x. refl;
        }))
  move-Change once k (removed fd) s u h = unmaps fd refl refl refl refl refl (record {
    shows_open = λ x. refl;
    shows_armed = λ x. refl;
    shows_mapped = λ x. is_some_if (fd == x) none (s.connections x);
  })
  move-Change once k (erased fd) s u h =
      stays_at_rest s s (erased fd) undefined refl refl refl (same s)
