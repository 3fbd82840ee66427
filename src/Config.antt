-- ===== src/Config.antt =====
-- src/core/ConfigSchema.cpp and Config.cpp: the schema, the validation of a document against it, the
-- rules across its fields, and what the loader reads of a valid document.
pub mod Document
pub mod Suggestion
pub mod Schema
pub mod Check
pub mod Cross
pub mod Valid
pub mod Load
pub mod Emit
