-- ===== src/Http.antt =====
-- HttpServer of src/http_server.cpp.
--
-- libevent, cJSON and the clock are parameters: a request is its parsed parameters, and a reply is a
-- value that says what is sent. The server has one thread, so a handler is one step.
pub mod Pages
pub mod Files
pub mod Info
pub mod Uuid
pub mod Daily
pub mod Json
