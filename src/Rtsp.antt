-- ===== src/Rtsp.antt =====
-- The RTSP messages: src/Server/RTSPRequest.cpp and src/Server/RTSPResponse.cpp.
pub mod Headers
pub mod Request
pub mod Response
