-- ===== src/Models.antt =====
-- The dataclasses, enums, constants and limits of src/gdrive_turbo_copy/models.py, and what the
-- program knows of an exception.
pub mod DriveFile
pub mod AppProperties
pub mod Config
pub mod Records
