-- ===== src/Standalone.antt =====
-- The standalone capture flow of the experiment: backend/app/api/v1/transactions.py and
-- backend/app/portrait/processor.py.
pub mod Processor
pub mod Api
