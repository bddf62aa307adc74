-- ===== src/Http.antt =====
-- src/mk_http.c, one module for each part.
pub mod Methods
pub mod Range
pub mod Spans
pub mod Send
pub mod Status
pub mod Pending
pub mod Completion
