-- ===== src/Vlm.antt =====
-- The evaluation by a vision model: backend/app/providers/vision and
-- backend/app/experiments/vlm.
pub mod Errors
pub mod Retry
pub mod Frames
pub mod Assessment
pub mod Service
pub mod Metrics
