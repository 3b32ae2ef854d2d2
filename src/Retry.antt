-- ===== src/Retry.antt =====
-- src/gdrive_turbo_copy/retry.py: what an exception says, its class, and the retry loop.
pub mod Errors
pub mod Backoff
pub mod Loop
