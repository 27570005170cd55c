-- ===== src/HttpClient.antt =====
-- pkg/httpclient: the transport that retries.
pub mod Retry
