-- ===== src/Server/Loop/Tests.antt =====
-- The threads of the server at a concrete platform: the listener is descriptor 3, and the first
-- connection is descriptor 7.
use rtp_server.Common.{
  ℕ, Bool, true, false, Option, none, some, ◌≡◌, refl, sym, ap, arith, if◌then◌else◌, ◌==◌, [],
  codes, Bytes, Bool-cases, inl, inr,
}
use rtp_server.Exception.{bad_method, Outcome-cases}
use rtp_server.Rtsp.Request.Loop.{Eol}
use rtp_server.Rtsp.Request.RoundTrip.{render}
use rtp_server.Server.{Connection, new_connection, append_to_message}
use rtp_server.Server.Epoll.{Epoll, IsOneshot}
use rtp_server.Server.EndToEnd.{append_to_message-render, ready-received, received}
use rtp_server.Server.Tests.{
  unknown_method, unknown_method-IsWellFormed, serve_unknown, no_tracks, closed, world, context,
}
use rtp_server.Server.Loop.{
  Platform, Server, Answers, event, accepted_from, shut_down, bytes, waiting, on_wait, on_accept,
  control, look_up, on_recv, move, put,
}
use rtp_server.Server.Loop.Reached.{
  System, IsStart, Reach, here, next, turn, advance, IsOrderly, Reach-IsOrderly, Reach-inserts,
}
use rtp_server.Server.Loop.Changes.{left_open}
use rtp_server.Rtsp.Request.{ready}
use rtp_server.Server.Loop.Lost.{IsLost, handler_throws, thrown-IsLost, race-IsLost}
use rtp_server.Server.Loop.Round.{moves, outcome, round-serve_bytes}

abbrev set_bit : Bool → ℕ → (ℕ → Bool) → ℕ → Bool
set_bit b fd s x = if fd == x then b else s x

-- What epoll watches is a set of descriptors.
abbrev watched : Epoll
watched = record {
  State = ℕ → Bool;
  add = λ fd s. some (set_bit true fd s);
  rearm = λ fd s. some (set_bit true fd s);
  remove = λ fd s. some (set_bit false fd s);
  report = set_bit false;
  is_armed = λ s x. s x;
}

value : Option (ℕ → Bool) → ℕ → Bool
value none x = false
value (some f) x = f x

watched-IsOneshot : IsOneshot watched
unfolding value
watched-IsOneshot = record {
  armed_add = λ fd x s t e. sym (ap (λ o. value o x) e);
  armed_rearm = λ fd x s t e. sym (ap (λ o. value o x) e);
  armed_remove = λ fd x s t e. sym (ap (λ o. value o x) e);
  armed_report = λ fd x s. refl;
}

abbrev pub platform : Platform
platform = record {
  ops = no_tracks;
  opener = closed;
  iterate = λ hs. hs;
  tries = 1;
  random = λ n. n;
  epoll = watched;
  listener_socket = 3;
  interrupt_fd = 4;
  stays_open = λ before after x. true;
}

-- A client knocks; descriptor 7 has an event; its client leaves.
abbrev knock : Answers platform
knock = record {
  wait = event 3;
  accept = accepted_from 7 (codes "h");
  recv = bytes (render Eol.just_lf unknown_method []);
  send_succeeds = true;
  context = context;
}

abbrev ring : Answers platform
ring = record knock { wait = event 7 }

abbrev leave : Answers platform
leave = record ring { recv = shut_down }

abbrev pub start : System platform
start = record {
  pc = λ i. waiting;
  server = record {
    connections = λ fd. none;
    epoll = λ fd. false;
    is_open = λ fd. false;
    is_live = true;
    world = world;
    sent = [];
  };
}

start-IsStart : IsStart platform start
start-IsStart = record { all_wait = λ i. refl; no_connection = λ fd. refl; none_armed = λ fd. refl }

-- Thread 0 accepts the connection and arms it.
abbrev brought : System platform
brought = advance platform 0 knock (advance platform 0 knock (advance platform 0 knock start))

start-brought : Reach platform start brought
unfolding move on_wait on_accept control
start-brought =
    next (next (next here (turn 0 knock (λ fd e. ground arith))) (turn 0 knock (λ fd a e. refl)))
      (turn 0 knock tt)

Reach-inserts_example : brought.server.connections 7 ≡ none
unfolding move on_wait on_accept control
Reach-inserts_example =
    Reach-inserts platform watched-IsOneshot 0 7 (codes "h") start-IsStart start-brought refl

Reach-IsOrderly_example : IsOrderly platform brought
Reach-IsOrderly_example = Reach-IsOrderly platform watched-IsOneshot start-IsStart start-brought

-- Thread 1 has the event of the connection first.
abbrev raced : System platform
raced = advance platform 1 ring brought

start-raced : Reach platform start raced
unfolding move on_wait on_accept control
start-raced = next start-brought (turn 1 ring (λ fd e. ground arith))

-- The connection that thread 0 then puts into the map is lost.
race-IsLost_example :
    IsLost platform watched-IsOneshot 7 (advance platform 0 knock (advance platform 1 ring raced))
unfolding move on_wait on_accept control look_up
race-IsLost_example =
    race-IsLost platform watched-IsOneshot 7 1 0 ring (codes "h") start-IsStart start-raced refl
      refl (next here (turn 0 knock tt))

-- Thread 0 puts the connection into the map in time, and thread 1 finds it.
abbrev met : System platform
met = advance platform 1 ring (advance platform 1 ring (advance platform 0 knock brought))

start-met : Reach platform start met
unfolding move on_wait on_accept control look_up
start-met =
    next (next (next start-brought (turn 0 knock tt)) (turn 1 ring (λ fd e. ground arith)))
      (turn 1 ring tt)

abbrev answered_in : Connection
answered_in = record (new_connection (codes "h")) {
  message_buffer = render Eol.just_lf unknown_method [];
  request = received unknown_method (codes "h");
}

-- No handler of this platform closes anything.
closes_nothing :
    (k : Answers platform) (b : Bytes) (c : Connection) (s : Server platform) (x : ℕ)
    → left_open platform k b c s x ≡ s.is_open x
closes_nothing k b c s x = elim (Outcome-cases (append_to_message b c)) [
  | inr (e, c', thrown) ↦ rw (left_open, thrown) refl
  | inl (c', read) ↦ elim (Bool-cases (ready c'.request)) [
    | inl whole ↦ rw (left_open, read, whole) (ground arith)
    | inr more ↦ rw (left_open, read, more) refl
  ]
]

-- The method that the client asks for is unknown.
thrown-IsLost_example :
    IsLost platform watched-IsOneshot 7 (advance platform 1 ring (advance platform 1 ring met))
unfolding move on_wait on_accept control look_up on_recv
thrown-IsLost_example =
    thrown-IsLost platform watched-IsOneshot 7 1 ring (render Eol.just_lf unknown_method [])
      (new_connection (codes "h")) start-IsStart (next start-met (turn 1 ring tt)) refl refl
      (handler_throws bad_method answered_in
        (append_to_message-render Eol.just_lf unknown_method (codes "h") unknown_method-IsWellFormed
          tt (omega arith))
        (ready-received unknown_method (codes "h")) (ap (λ r. r.0) serve_unknown) refl)
      (λ c x e.
        closes_nothing ring (render Eol.just_lf unknown_method []) c
          (advance platform 1 ring met).server x)
      here

-- The client has left; the connection is erased.
abbrev left : System platform
left = advance platform 1 leave (advance platform 1 leave (advance platform 1 leave met))

abbrev one_connection : Server platform
one_connection = put platform 7 (new_connection (codes "h")) start.server

round-serve_bytes_example :
    moves platform 4 ring waiting one_connection
    ≡ outcome platform ring 7
        (render Eol.just_lf unknown_method [])
        (new_connection (codes "h"))
        (record one_connection { epoll = set_bit false 7 (λ fd. false) })
round-serve_bytes_example =
    round-serve_bytes platform ring 7 (render Eol.just_lf unknown_method [])
      (new_connection (codes "h")) one_connection refl refl refl refl refl refl
