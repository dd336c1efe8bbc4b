-- ===== src/Browser.antt =====
-- The browser API: backend/app/api/v1/browser.py.
pub mod Common
pub mod Attempt
pub mod Liveness
pub mod Portrait
pub mod Submit
pub mod View
