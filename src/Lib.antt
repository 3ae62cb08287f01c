-- ===== src/Lib.antt =====
-- A service that keeps a weekly rating of users by what they won, tells each connected user of his
-- place once a minute, and takes users, connections and deals from one client over a socket.
--
-- The parts, and how they work together. The client sends messages (ipc/protocol.h) in frames
-- (ipc/transport.h); the overseer reads them through the message builder (service/message_builder.h)
-- and gives them to the dispatcher (service/message_dispatcher.cpp), which collects the data of a
-- minute in one of two buffers. Once a minute the announcer (service/rating_announcer.cpp) has the
-- calculator (service/rating_calculator.cpp) take the other buffer and bring the rating up to date,
-- and then puts a job for each user who is online into the job queue (service/job_queue.cpp), from
-- which the workers (service/worker_pool.cpp) answer with rating messages and error messages.
--
-- The files:
--   Prelude, Failures, Maps: lists, tests, machine integers, results, association lists.
--   Binary: utils/binary_storage.h. A stream is a position and a list of bytes.
--   Protocol: ipc/protocol.h, in the build with PASS_NAMES_AROUND, which CMakeLists.txt defines.
--   Core: service/core_data.h. A pointer to a user is his id, since `activeUsers` owns the object.
--   Calculator: service/rating_calculator.cpp. Patches, Moves, Users and Recalculate hold its
--     functions (`ratingMoveBlock` is rating_move_block, and so on); Rebuild is an account of the
--     loop on lists, with Blocks, Refine and Loop for the refinement; Order, Sorted, Insert, Measures,
--     Content and Rated say what a correct rating is; Deals, Amounts, Agree, Refreshed, Rating, Kept,
--     Buffers, Phases and Minute lead to the rating after a minute.
--   Transport, Builder: ipc/transport.h, service/message_builder.h. The socket of asio is a
--     parameter, with the law of a stream as a named hypothesis.
--   Dispatcher, Queue, Workers, Announcer, Clock: service/message_dispatcher.cpp,
--     service/job_queue.cpp, service/worker_pool.cpp, service/rating_announcer.cpp,
--     utils/date_time.h. Readings of the clock and of flags are arguments.
--   Exchange: how the two buffers change hands, as a step relation over the atomic accesses of
--     Overseer::run (service/overseer.cpp) and RatingCalculator::recalculate.
--   Refresh: how the workers are put to sleep for a recalculation, as a step relation over the accesses
--     to CoreDataSyncBlock (service/core_data.h) in WorkerPool::doWork and RatingCalculator::recalculate.
--   Overseer: service/overseer.cpp and service/main.cpp, the life of the service from connection to
--     connection. What other threads do is what each turn of the message loop reads: the signals, the
--     current buffer, and whether the buffer that is not in use was emptied. Whether they end at the
--     end of a connection is an argument; a round hangs if they do not. Buffers says what each buffer
--     should hold, Turns is about the message loop, and Served about a whole connection.
--   Interpreter: test/message_interpreter.h, the client that reads the service's messages.
--   Storage: test/storage.cpp, what the test client knows and how it checks the service. A user is an
--     object behind an address; Users, Pick, Reference and Checks hold the functions of
--     UserDataStorage::Impl (`fixUserWinnings` is fix_user_winnings, and so on), and Methods the two of
--     UserDataStorage that do more than call them. Invariant, Changes,
--     Connections, Wins, Returns and Joins are about the maps, Addresses, Multimap, Members and Rated about
--     the reference rating, Drawn about the random choice of a user, Copying, CopiedUsers, Copied and
--     NextMinute about the copy at the end of a minute, Tally, Accepts, Agreed and Answered about the
--     checks.
--   Strategy: test/strategy.cpp and test/name_generator.cpp, the client itself: Names, Minute and
--     Responses hold its functions, Mirrored, Drawing, Visits, Gains, Judged and Turns what they keep.
--   Service: a minute from the messages to the rating. Examples: the theorems at concrete inputs.
--
-- Values of fixed-width types are their bit patterns, with wrap-around written out; signed order
-- goes through the pattern moved by half the range. Assertions are kept, since the build sets no
-- NDEBUG: a failed one is a failure of the result, and so is undefined behaviour, where a
-- function with a result ends without a return. The loops over lists are structural; the loops of
-- a worker over his queues take fuel, of which one turn more than there are jobs is enough, and the
-- seconds of a minute take 60. A rating has fewer than 2 ^ 31 places, as `int` asks; the end of the
-- range of an answer, 11 places on, would overflow `int` from place 2 ^ 31 - 11 on, and there the
-- model goes on with the number.
--
-- Random numbers are arguments, and so are the counts that the test client works out with
-- floating-point products.
--
-- Not modelled: the start and the end of threads, sleeps and weak memory orders, the spinlock, the
-- vendored asio, what is only printed, and the command line of the test client.
pub mod Prelude
pub mod Failures
pub mod Binary
pub mod Protocol
pub mod Maps
pub mod Core
pub mod Calculator
pub mod Queue
pub mod Dispatcher
pub mod Clock
pub mod Transport
pub mod Builder
pub mod Workers
pub mod Announcer
pub mod Exchange
pub mod Refresh
pub mod Interpreter
pub mod Service
pub mod Overseer
pub mod Storage
pub mod Strategy
pub mod Examples
