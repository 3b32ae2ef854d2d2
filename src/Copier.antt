-- ===== src/Copier.antt =====
-- src/gdrive_turbo_copy/copier.py: the copy engine.
pub mod Drive
pub mod Engine
pub mod Book
pub mod Checks
pub mod Failure
pub mod Files
pub mod Listing
pub mod Completed
pub mod Folders
pub mod Resuming
pub mod Batches
pub mod Submit
pub mod Children
pub mod Levels
pub mod Moves
pub mod Run
pub mod Kept
