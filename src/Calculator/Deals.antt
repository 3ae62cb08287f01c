-- ===== src/Calculator/Deals.antt =====
-- processDeals of service/rating_calculator.cpp: the patches that it collects fit the rating.
pub mod Pending
pub mod Active
pub mod Silent
pub mod Loop
