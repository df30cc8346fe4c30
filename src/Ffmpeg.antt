-- ===== src/Ffmpeg.antt =====
-- The pipeline of src/ffmpeg.
pub mod Session
pub mod Pacer
pub mod Pipeline
