-- ===== src/Server/Loop.antt =====
-- `Server::serve` of src/Server/Server.cpp, which several threads run: one step of a thread is one
-- access to what they share. The answers of the kernel are an argument of each step. A failed call
-- that HANDLE_INT_RESULT guards ends the process. An iterator of the map is taken to stay valid when
-- another thread inserts, as it does in the libraries that keep each element in a node of its own.
pub mod Claims
pub mod Changes
pub mod Moves
pub mod Apart
pub mod Reached
pub mod Defined
pub mod Lost
pub mod Round
pub mod Tests
use rtp_server.Common.{
  ℕ, Bool, true, false, Option, none, some, List, [], ◌∷◌, ◌==◌, ◌&&◌, if◌then◌else◌, Bytes,
}
use rtp_server.Exception.{Error, is_caught, Result, ok, err, done, threw}
use rtp_server.Rtsp.Headers.{Headers}
use rtp_server.Rtsp.Request.{ready}
use rtp_server.Rtsp.Response.{Response, get_data}
use rtp_server.Session.{TrackOps}
use rtp_server.Dispatch.{Context, Opener, World, dispatch}
use rtp_server.Server.{Connection, new_connection, clear_message, append_to_message}
use rtp_server.Server.Epoll.{Epoll}

-- What the server runs on.
pub record Platform : Type 1 where
  pub ops : TrackOps
  pub opener : Opener ops.Track
  pub iterate : Headers → Headers
  pub tries : ℕ
  pub random : ℕ → ℕ
  pub epoll : Epoll
  pub listener_socket : ℕ
  pub interrupt_fd : ℕ
  -- Whether a descriptor that is open before a handler runs is open behind it. The descriptors of
  -- connections and of sockets are numbers of one table, and a handler destroys sockets whose
  -- numbers may be those of connections.
  pub stays_open : opener.State → opener.State → ℕ → Bool

pub data Waited : Type 0 where
  interrupted wait_failed : Waited
  event : ℕ → Waited

pub data Accepted : Type 0 where
  again accept_failed : Accepted
  accepted_from : ℕ → Bytes → Accepted

pub data Received : Type 0 where
  recv_failed shut_down : Received
  bytes : Bytes → Received

-- Where a thread stands. `returned` is behind the loop, `exited` is the end of the process, and
-- from `undefined` on the behaviour is undefined (or the fuel of `create_session` is used up).
pub data Pc : Type 0 where
  waiting accepting returned exited undefined : Pc
  -- line 115, line 117
  accepted registered : ℕ → Bytes → Pc
  -- line 126, line 153
  looking found : ℕ → Pc
  -- line 169
  received : ℕ → Bytes → Pc
  -- line 186, line 159, line 163, and the end of the scope of `_d1`
  answered hung_up removed erased : ℕ → Pc

module _ (g : Platform) where
  -- What the kernel answers on a step, and the time of day.
  pub record Answers : Type 0 where
    pub wait : Waited
    pub accept : Accepted
    pub recv : Received
    pub send_succeeds : Bool
    pub context : Context g.ops.Time

  -- What the threads share; `is_open` says which descriptors of connections are open, and `sent`
  -- holds what was sent, the last one first.
  pub record Server : Type 0 where
    pub connections : ℕ → Option Connection
    pub epoll : g.epoll.State
    pub is_open : ℕ → Bool
    pub is_live : Bool
    pub world : World g.ops g.opener
    pub sent : List (ℕ × Bytes)

  -- `insert_or_assign`, or a change of the connection that is found.
  abbrev pub put : ℕ → Connection → Server → Server
  put fd c s = record s { connections = λ x. if fd == x then some c else s.connections x }

  -- Lines 73 to 89. On EINTR, `Session::shutdown`.
  unfoldable pub on_wait : Waited → Server → Pc × Server
  on_wait interrupted s = (returned, record s { is_live = false })
  on_wait wait_failed s = (exited, s)
  on_wait (event fd) s =
      if fd == g.interrupt_fd
      then (returned, s)
      else if fd == g.listener_socket
      then (accepting, s)
      else (looking fd, record s { epoll = g.epoll.report fd s.epoll })

  -- Lines 94 to 110.
  unfoldable pub on_accept : Accepted → Server → Pc × Server
  on_accept again s = (waiting, s)
  on_accept accept_failed s = (returned, s)
  on_accept (accepted_from fd address) s =
      (accepted fd address, record s { is_open = λ x. if fd == x then true else s.is_open x })

  -- An `epoll_ctl` that leads from its result to `next`.
  unfoldable pub control : Option g.epoll.State → Pc → Server → Pc × Server
  control none next s = (exited, s)
  control (some t) next s = (next, record s { epoll = t })

  -- Lines 126 to 146. The exception is logged.
  unfoldable pub look_up : ℕ → Server → Pc × Server
  look_up fd s = elim (s.connections fd) [ none ↦ (waiting, s) | some c ↦ (found fd, s) ]

  -- Lines 153 to 157.
  unfoldable pub on_recv : ℕ → Received → Server → Pc × Server
  on_recv fd recv_failed s = (exited, s)
  on_recv fd shut_down s = (hung_up fd, s)
  on_recv fd (bytes b) s = (received fd b, s)

  -- What a handler leaves: its world, and the descriptors that are still open.
  abbrev pub handled : World g.ops g.opener → Server → Server
  handled w s = record s {
    world = w;
    is_open = λ x. s.is_open x && g.stays_open s.world.files w.files x;
  }

  -- An exception is logged; nothing else is caught.
  abbrev pub behind : Error → Pc
  behind e = if is_caught e then waiting else undefined

  -- Lines 175 to 179, behind `dispatch`.
  unfoldable pub reply :
      ℕ → Bool → Connection → Result Response → World g.ops g.opener → Server → Pc × Server
  reply fd send_succeeds c (err e) w s = (behind e, put fd c (handled w s))
  reply fd false c (ok response) w s = (exited, put fd c (handled w s))
  reply fd true c (ok response) w s = (
    answered fd,
    put fd (clear_message c) (record (handled w s) { sent = (fd, get_data response) ∷ s.sent }),
  )

  -- Lines 169 to 180.
  unfoldable pub process : Answers → ℕ → Bytes → Connection → Server → Pc × Server
  process k fd b c s = elim (append_to_message b c) [
    | threw e c' ↦ (behind e, put fd c' s)
    | done c' ↦
        let (r, w) =
          dispatch g.ops g.opener g.iterate g.tries g.random k.context c'.request s.world in
        elim (ready c'.request) [
          | false ↦ (answered fd, put fd c' s)
          | true ↦ reply fd k.send_succeeds c' r w s
        ]
  ]

  -- `erase`, with the destructor of the connection, which closes the descriptor.
  unfoldable pub erase : ℕ → Server → Server
  erase fd s = record s {
    connections = λ x. if fd == x then none else s.connections x;
    is_open = λ x. if fd == x then false else s.is_open x;
  }

  -- A step of a thread. A use of a connection that is gone is undefined behaviour; so is the last
  -- step, since `_d1` unlocks the mutex of the connection that is erased.
  unfoldable pub move : Answers → Pc → Server → Pc × Server
  move k waiting s = on_wait k.wait s
  move k accepting s = on_accept k.accept s
  move k returned s = (returned, s)
  move k exited s = (exited, s)
  move k undefined s = (undefined, s)
  move k (accepted fd address) s = control (g.epoll.add fd s.epoll) (registered fd address) s
  move k (registered fd address) s = (waiting, put fd (new_connection address) s)
  move k (looking fd) s = look_up fd s
  move k (found fd) s = on_recv fd k.recv s
  move k (received fd b) s = elim (s.connections fd) [
    | none ↦ (undefined, s)
    | some c ↦ process k fd b c s
  ]
  move k (answered fd) s = control (g.epoll.rearm fd s.epoll) waiting s
  move k (hung_up fd) s = control (g.epoll.remove fd s.epoll) (removed fd) s
  move k (removed fd) s = (erased fd, erase fd s)
  move k (erased fd) s = (undefined, s)
