-- ===== src/Server/Loop/Round.antt =====
-- The steps of a thread on one event, from the wait to the answer, as one call of `serve_bytes`.
use rtp_server.Common.{
  ℕ, zero, suc, true, false, Option, none, some, ◌≡◌, refl, ap, ◌∙◌, if◌then◌else◌, ◌==◌, Bytes,
  ◌++◌, map, Bool-cases, inl, inr,
}
use rtp_server.Exception.{Error, ok, err, done, threw, Outcome-cases, Result-cases}
use rtp_server.Rtsp.Request.{ready}
use rtp_server.Dispatch.{dispatch}
use rtp_server.Server.{Connection, append_to_message, Served, serve_bytes}
use rtp_server.Server.Loop.{
  Platform, Server, Answers, event, bytes, Pc, waiting, looking, found, received, answered, on_wait,
  look_up, on_recv, reply, process, move, put, behind,
}
use rtp_server.Server.Loop.Changes.{left_open}

module _ (g : Platform) where
  -- Some steps of one thread alone, with the same answers.
  pub moves : ℕ → Answers g → Pc → Server g → Pc × Server g
  moves zero k p s = (p, s)
  moves (suc n) k p s = let (q, t) = move g k p s in moves n k q t

  abbrev pub served : Answers g → Bytes → Connection → Server g → Served g.ops g.opener
  served k b c s = serve_bytes g.ops g.opener g.iterate g.tries g.random k.context b c s.world

  -- The error that the parser or the handler stops with, where there is one.
  abbrev pub stopped_by : Answers g → Bytes → Connection → Server g → Option Error
  stopped_by k b c s = elim (append_to_message b c) [
    | threw e c' ↦ some e
    | done c' ↦
        let r =
          (dispatch g.ops g.opener g.iterate g.tries g.random k.context c'.request s.world).0 in
        if ready c'.request then (elim r [ err e ↦ some e | ok response ↦ none ]) else none
  ]

  abbrev place : ℕ → Option Error → Pc
  place fd none = answered fd
  place fd (some e) = behind g e

  -- What `serve_bytes` says of an event, as the place and the state that a thread leaves.
  abbrev pub outcome : Answers g → ℕ → Bytes → Connection → Server g → Pc × Server g
  outcome k fd b c s =
      let v = served k b c s in
      (
        place fd (stopped_by k b c s),
        put g fd v.connection (record s {
          world = v.world;
          is_open = left_open g k b c s;
          sent = map (λ m. (fd, m)) v.sent ++ s.sent;
        }),
      )

  process-serve_bytes :
      (k : Answers g) (fd : ℕ) (b : Bytes) (c : Connection) (s : Server g)
      → k.send_succeeds ≡ true
      → process g k fd b c s ≡ outcome k fd b c s
  unfolding process serve_bytes reply
  process-serve_bytes k fd b c s h = elim (Outcome-cases (append_to_message b c)) [
    | inr (e, c', thrown) ↦ rw (process, serve_bytes, stopped_by, left_open, thrown) refl
    | inl (c', read) ↦ elim (Bool-cases (ready c'.request)) [
      | inr more ↦ rw (process, serve_bytes, stopped_by, left_open, read, more) refl
      | inl whole ↦
          elim (Result-cases
            (dispatch g.ops g.opener g.iterate g.tries g.random k.context c'.request s.world).0) [
              | inl (response, answer) ↦
                  rw (process, serve_bytes, stopped_by, left_open, read, whole, answer)
                    (let w =
                        (dispatch g.ops g.opener g.iterate g.tries g.random k.context c'.request
                          s.world).1 in
                      ap (λ sends. reply g fd sends c' (ok response) w s) h)
              | inr (e, throws) ↦
                  rw (process, serve_bytes, stopped_by, left_open, read, whole, throws, reply) refl
            ]
    ]
  ]

  given :
      (k : Answers g) (fd : ℕ) (s : Server g)
      → (fd == g.interrupt_fd) ≡ false
      → (fd == g.listener_socket) ≡ false
      → k.wait ≡ event fd
      → move g k waiting s ≡ (looking fd, record s { epoll = g.epoll.report fd s.epoll })
  unfolding move on_wait
  given k fd s i l w = rw (move, w, on_wait, i, l) refl

  seen :
      (k : Answers g) (fd : ℕ) (c : Connection) (s : Server g)
      → s.connections fd ≡ some c
      → move g k (looking fd) s ≡ (found fd, s)
  unfolding move look_up
  seen k fd c s m = rw (move, look_up, m) refl

  heard :
      (k : Answers g) (fd : ℕ) (b : Bytes) (s : Server g)
      → k.recv ≡ bytes b
      → move g k (found fd) s ≡ (received fd b, s)
  unfolding move on_recv
  heard k fd b s r = rw (move, r, on_recv) refl

  taken :
      (k : Answers g) (fd : ℕ) (b : Bytes) (c : Connection) (s : Server g)
      → s.connections fd ≡ some c
      → move g k (received fd b) s ≡ process g k fd b c s
  unfolding move
  taken k fd b c s m = rw (move, m) refl

  -- An event of a connection in the map, on which the bytes `b` are received and, if there is an
  -- answer, it can be sent: four steps of the thread change the server as `serve_bytes` says. The
  -- thread then arms the descriptor, or, behind an exception, waits and leaves it unarmed; where the
  -- parser or the handler comes to undefined behaviour, so does the thread. The descriptors that the
  -- handler leaves open are open.
  pub round-serve_bytes :
      (k : Answers g) (fd : ℕ) (b : Bytes) (c : Connection) (s : Server g)
      → (fd == g.interrupt_fd) ≡ false
      → (fd == g.listener_socket) ≡ false
      → k.wait ≡ event fd
      → s.connections fd ≡ some c
      → k.recv ≡ bytes b
      → k.send_succeeds ≡ true
      → moves 4 k waiting s ≡ outcome k fd b c (record s { epoll = g.epoll.report fd s.epoll })
  unfolding moves
  round-serve_bytes k fd b c s i l w m r h =
      let s' : Server g = record s { epoll = g.epoll.report fd s.epoll } in
      rw (moves, given k fd s i l w, seen k fd c s' m, heard k fd b s' r)
        (taken k fd b c s' m ∙ process-serve_bytes k fd b c s' h)
