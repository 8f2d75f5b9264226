-- ===== src/Json.antt =====
-- The JSON side: src/json.
pub mod Comment
pub mod Resumes
