-- ===== src/Liveness.antt =====
-- The server-authoritative liveness gate: backend/app/experiments/vlm/liveness.py.
pub mod Policy
pub mod Capture
pub mod Claims
pub mod Evaluation
pub mod Binding
