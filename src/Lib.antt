-- ===== src/Lib.antt =====
-- An RTSP server that streams the frames of a file over RTP (src/Server, src/util). A client's
-- request is read and parsed, the dispatcher answers it, and a session sends packets on UDP sockets.
--
-- The model follows the sources function by function. A class is a record, a method that changes it
-- takes the record and gives it back; a method that throws gives an `Outcome` with the record as it
-- was left, and a function that throws gives a `Result` (Exception.antt, for src/Server/Exception.h).
-- Texts are lists of bytes; machine integers are natural numbers below 2 ^ w with the wrap-around
-- written out, and a negative number is its bit pattern.
--
-- The parts:
-- Common.antt: the helpers that the other modules share, `std::string` and the library's numbers.
-- Exception.antt: what is thrown, named by its cause; Exception/Messages.antt: the constructors of
--   `Exception` of src/Server/Exception.cpp and the buffer in which all texts stand.
-- Util.antt: src/util/misc.h and src/util/misc.cpp: `split`, `find_nth_of`, `int_to_string`.
-- Util/RingBuffer.antt: src/util/RingBuffer.cpp, with the heap behind the buffer.
-- Util/Npt.antt and Util/Npt/Clock.antt: the range header and the texts of times of src/util/NPT.cpp,
--   over the library's conversions of a `float`.
-- Rtsp/Request.antt: `RTSPRequest` of src/Server/RTSPRequest.cpp. The loop of `parse_request` runs
--   on one round more than the message has bytes; each round passes a line end.
-- Rtsp/Response.antt: `RTSPResponse` of src/Server/RTSPResponse.cpp.
-- Media/Sdp.antt: the loop of `get_sdp` of src/Server/Stream.cpp, which takes the carriage returns out
--   of the description in place. It has as many rounds as the code's.
-- Media/Controls.antt: `map_streams_to_control_ids` of src/Server/Media.cpp, with `getline`. The loop
--   runs on one round more than the description has bytes; each round takes a byte at least.
-- Rtp/Packet.antt: the constructor of `RTPPacket` of src/Server/RTPPacket.cpp.
-- Rtp/Fragments.antt: the inner loop of `Track::send_frames` of src/Server/Track.cpp, which cuts a
--   frame into packets. It runs on one round more than the frame has bytes; each round sends one.
-- Rtp/Transport.antt: `RTPTransport` of src/Server/RTPTransport.cpp, the Transport header; its sockets
--   are in Rtp/Transport/Bind.antt, its constructor and destructor in Rtp/Transport/Construct.antt.
-- Udp.antt: the pool of ports and `UDP::Socket` of src/Server/UDP.cpp, over the system calls as a
--   parameter.
-- Rtp/Track.antt: `Track::send_frames` of src/Server/Track.cpp and `Stream::read_frame` of
--   src/Server/Stream.cpp. The demuxer and `float` are parameters. The loop need not end, so its rounds
--   are an argument, as is the number of packets that are read for one frame.
-- Rtp/Track/Open.antt: the constructor of `Track` and `Stream::load`, as SETUP calls them.
-- Session.antt: a session of src/Server/Session.cpp, over an interface of tracks (Session/Tracks.antt).
-- Session/Store.antt: the map of sessions, the groups and a pass of a worker. The choice of an id draws
--   numbers until one is free, so the number of tries is an argument.
-- Dispatch.antt: the handlers of src/Server/dispatch.cpp and `dispatch` of src/Server/Server.cpp. The
--   constructor of `Track` and the growth of the vector of tracks are an interface (`Opener`), which
--   Rtp/Track/Open.antt fills.
-- Dispatch/Runs.antt: the requests and the passes of the workers on one store, in any order.
-- Server.antt: the connection of src/Server/Connection.cpp, and what is done with the bytes of one
--   event.
-- Server/Loop.antt: `Server::serve` of src/Server/Server.cpp, run by any number of threads. A step of a
--   thread is one access to what the threads share, and steps of the threads come in any order;
--   epoll is an interface with its documented laws (Server/Epoll.antt).
-- Server/Owner.antt: the objects of the map of connections, with their moves and destructors.
-- Start.antt: the numbers of workers in `main` of src/main.cpp; Start/Loader.antt: `SDP_Loader` of
--   src/Server/Media.cpp, which reads the descriptions of the media before `main`;
--   Start/Reached.antt: the requests and the workers from the start on.
--
-- A thread of the server takes an event, finds the connection, receives and parses, and hands a
-- request that is ready to a handler. A handler finds a session in the store and changes it; a worker's
-- pass ticks the sessions of its group, a tick sends frames on the tracks, a frame becomes packets on a
-- UDP socket.
--
-- Not modelled: libavformat, the options of sockets, `Server::listen`, the signal handler and the
-- creation of threads, which are calls of the system; the list of media files, which is an argument;
-- the destructor and `jump_to` of `Stream` and `Track::get_id_from_uri`, which nothing calls. A handler
-- and a pass of a worker are each taken in one piece, though other threads can run between the locks
-- that they take. A handler may destroy sockets, and so close descriptors that are those of connections
-- by then: which ones it leaves open is a parameter of the server's loop, and where a result on the loop
-- needs that it closes no open one, it says so. `recv` gives at most 4096 bytes; the model takes any
-- number. An iterator of the map of connections is taken to stay valid when another thread inserts.
-- What a lookup in the map of control ids finds is a parameter, since its keys are views of strings that
-- are gone.
pub mod Common
pub mod Exception
pub mod Util
pub mod Rtsp
pub mod Rtp
pub mod Udp
pub mod Dispatch
pub mod Media
pub mod Server
pub mod Session
pub mod Start
