-- ===== src/HttpServer/Chi.antt =====
-- pkg/http_server/chi_server: the calls on the writer of a response, the race of a handler with its
-- deadline, the middleware, and the server.
pub mod Calls
pub mod Timeout
pub mod Middleware
pub mod Forwarding
pub mod Chain
pub mod Server
pub mod Support
mod Tests
