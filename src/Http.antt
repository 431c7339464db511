-- ===== src/Http.antt =====
-- The HTTP server: src/http_server.hpp, src/http_server_impl.hpp, src/http_server.cpp and the
-- handlers src/http_hnd_*.cpp.
pub mod Server
pub mod Accept
pub mod Handler
pub mod Routes
pub mod Connection
pub mod Samples
