-- ===== src/Server/EndToEnd.antt =====
-- One event from the bytes received to the answer sent.
use rtp_server.Common.{ℕ, ◌^◌, ◌<◌, ◌≡◌, refl, true, false, [], ◌∷◌, ◌++◌, length, Bytes}
use rtp_server.Exception.{ok, err, done}
use rtp_server.Rtsp.Headers.{Headers}
use rtp_server.Rtsp.Request.{Request, parse_complete, ready}
use rtp_server.Rtsp.Request.Loop.{Eol, CanFollow}
use rtp_server.Rtsp.Request.RoundTrip.{IsWellFormed, render, parse_request-render}
use rtp_server.Rtsp.Response.{get_data}
use rtp_server.Session.{TrackOps}
use rtp_server.Dispatch.{Context, Opener, World, dispatch}
use rtp_server.Server.{new_connection, clear_message, append_to_message, serve_bytes}

-- A request that is read whole, as the handlers see it.
abbrev pub received : Request → Bytes → Request
received r address = record r { cursor = parse_complete; client_addr = address }

pub ready-received : (r : Request) (address : Bytes) → ready (received r address) ≡ true
unfolding ready
ready-received r address = refl

module _ (e : Eol) (r : Request) (address : Bytes) (w : IsWellFormed r)
    (c : CanFollow e (r.body ++ [])) (small : length (render e r []) < 2 ^ 64) where
  pub append_to_message-render :
      append_to_message (render e r []) (new_connection address)
      ≡ done (record (new_connection address) {
        message_buffer = render e r [];
        request = received r address;
      })
  unfolding append_to_message
  append_to_message-render = rw (append_to_message, parse_request-render e r [] address w c small)

  module _ (ops : TrackOps) (opener : Opener ops.Track) (iterate : Headers → Headers) (tries : ℕ)
      (random : ℕ → ℕ) (context : Context ops.Time) (world : World ops opener) where
    -- A new connection on which a well-formed request below 2 ^ 64 bytes arrives in one piece (one
    -- ended by carriage returns having no body that starts with a line feed): the handlers get
    -- exactly that request. If they answer, the answer is sent, and the connection is as new and
    -- armed again. If they throw, nothing is sent, the message stays, and the connection is not
    -- armed. In both cases the world is the one that the handlers leave.
    pub serve_bytes-render :
        let (reply, world') =
          dispatch ops opener iterate tries random context (received r address) world in
        serve_bytes ops opener iterate tries random context
          (render e r [])
          (new_connection address)
          world
        ≡ elim reply [
          | err _ ↦ record {
            connection = record {
              socket_address = address;
              message_buffer = render e r [];
              request = received r address;
            };
            armed = false;
            sent = [];
            world = world';
          }
          | ok response ↦ record {
            connection = new_connection address;
            armed = true;
            sent = get_data response ∷ [];
            world = world';
          }
        ]
    unfolding serve_bytes clear_message
    serve_bytes-render = rw (serve_bytes, append_to_message-render, ready-received r address) refl
