-- ===== src/Resume.antt =====
-- src/gdrive_turbo_copy/resume_store.py: the resume log as JSON, and the store that keeps it in the
-- destination folder.
pub mod Json
pub mod Payload
pub mod Store
pub mod Load
pub mod Cleanup
pub mod Read
