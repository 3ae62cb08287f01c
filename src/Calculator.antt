-- ===== src/Calculator.antt =====
-- service/rating_calculator.cpp: RatingCalculatorImpl.
pub mod Patches
pub mod Moves
pub mod Users
pub mod Recalculate
pub mod Rebuild
pub mod Changes
pub mod Refine
pub mod Loop
pub mod Order
pub mod Sorted
pub mod Measures
pub mod Rated
pub mod Deals
pub mod Amounts
pub mod Insert
pub mod Content
pub mod Agree
pub mod Refreshed
pub mod Rating
pub mod Phases
pub mod Minute
pub mod Blocks
pub mod Buffers
pub mod Kept
