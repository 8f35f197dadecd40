-- ===== src/Model.antt =====
-- The data of the services: backend/model.
pub mod Enums
pub mod Serde
