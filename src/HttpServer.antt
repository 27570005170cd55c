-- ===== src/HttpServer.antt =====
-- pkg/http_server/common, which both HTTP servers share, and in Chi pkg/http_server/chi_server.
pub mod Origins
pub mod Config
pub mod RequestId
pub mod Writer
pub mod Headers
pub mod Problem
pub mod Health
pub mod Chi
mod Tests
