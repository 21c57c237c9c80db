-- ===== src/Http.antt =====
-- `HttpClient` of lib/src/util/util.cpp: what it makes of the bytes that libcurl hands it.
pub mod Sse
pub mod Body
pub mod Redirects
pub mod Client
mod Examples
