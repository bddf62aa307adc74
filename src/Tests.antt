-- ===== src/Tests.antt =====
-- The theorems at concrete inputs, and runs of the modelled code.
pub mod Strings
pub mod Http
pub mod Serving
pub mod Requests
pub mod Threads
pub mod Dates
pub mod Answers
pub mod Replies
pub mod Events
pub mod Mandril
