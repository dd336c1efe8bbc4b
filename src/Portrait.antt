-- ===== src/Portrait.antt =====
-- The portrait pipeline: backend/app/portrait.
pub mod Mask
