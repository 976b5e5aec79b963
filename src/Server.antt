-- ===== src/Server.antt =====
-- `Server::Connection` of src/Server/Server.h and src/Server/Connection.cpp, and what
-- `Server::serve` of src/Server/Server.cpp does with one event on a connection. The descriptor is
-- armed with EPOLLONESHOT: it gives one event, and none more until it is armed again.
pub mod EndToEnd
pub mod Epoll
pub mod Loop
pub mod Owner
mod Tests
use rtp_server.Common.{ℕ, Bool, true, false, List, [], ◌∷◌, ◌++◌, Bytes}
use rtp_server.Exception.{Error, Result, ok, err, Outcome, done, threw}
use rtp_server.Rtsp.Headers.{Headers}
use rtp_server.Rtsp.Request.{Request, initial, parse_request, ready}
use rtp_server.Rtsp.Response.{Response, get_data}
use rtp_server.Session.{TrackOps}
use rtp_server.Dispatch.{Context, Opener, World, dispatch}

pub record Connection : Type 0 where
  pub socket_address : Bytes
  pub message_buffer : Bytes
  pub request : Request

-- The constructor, for an accepted connection.
abbrev pub new_connection : Bytes → Connection
new_connection address = record {
  socket_address = address;
  message_buffer = [];
  request = record initial { client_addr = address };
}

unfoldable pub clear_message : Connection → Connection
clear_message c = record c {
  message_buffer = [];
  request = record initial { client_addr = c.socket_address };
}

unfoldable pub append_to_message : Bytes → Connection → Outcome Connection
append_to_message b c = elim (parse_request (c.message_buffer ++ b) c.request) [
  | done r ↦ done (record c { message_buffer = c.message_buffer ++ b; request = r })
  | threw e r ↦ threw e (record c { message_buffer = c.message_buffer ++ b; request = r })
]

module _ (ops : TrackOps) (opener : Opener ops.Track) where
  -- A connection after an event, with what was sent on it.
  pub record Served : Type 0 where
    pub connection : Connection
    pub armed : Bool
    pub sent : List Bytes
    pub world : World ops opener

  -- `recv` gave the bytes `b`, of which the buffer of the code takes 4096 at most. An exception ends
  -- the round: it is logged, and neither is the message cleared nor the descriptor armed.
  unfoldable pub serve_bytes :
      (Headers → Headers)
      → ℕ
      → (ℕ → ℕ)
      → Context ops.Time
      → Bytes
      → Connection
      → World ops opener
      → Served
  serve_bytes iterate tries random context b c w = elim (append_to_message b c) [
    | threw e c' ↦ record { connection = c'; armed = false; sent = []; world = w }
    | done c' ↦
        let (r, w') = dispatch ops opener iterate tries random context c'.request w in
        elim (ready c'.request) [
          | false ↦ record { connection = c'; armed = true; sent = []; world = w }
          | true ↦ elim r [
            | err e ↦ record { connection = c'; armed = false; sent = []; world = w' }
            | ok response ↦ record {
              connection = clear_message c';
              armed = true;
              sent = get_data response ∷ [];
              world = w';
            }
          ]
        ]
  ]
