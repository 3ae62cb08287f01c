-- ===== src/Protocol.antt =====
-- ipc/protocol.h: the constants, the messages of both directions, and how each is stored and read.
-- Names are passed around, as in the build of CMakeLists.txt (PASS_NAMES_AROUND).
pub mod Constants
pub mod Client
pub mod Service
pub mod Rating
pub mod RoundTrip
pub mod RatingTrip
