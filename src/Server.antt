-- ===== src/Server.antt =====
-- The parts of the HTTP server under src/server/ that decide on a request.
pub mod Queue
pub mod RequestOptions
mod Tests
pub mod Thinking
