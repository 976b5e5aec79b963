-- ===== src/Media.antt =====
-- The session description of a media file: src/Server/Stream.cpp and src/Server/Media.cpp.
pub mod Sdp
pub mod Controls
