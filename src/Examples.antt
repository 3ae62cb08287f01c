-- ===== src/Examples.antt =====
-- The theorems at concrete inputs.
pub mod Messages
pub mod Answers
pub mod Threads
pub mod Ratings
pub mod Storages
pub mod Client
pub mod Lives
pub mod Refreshes
