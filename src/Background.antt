-- ===== src/Background.antt =====
-- The package lcl_fastapi.background: the journal that carries its events to the controller, its
-- writer, and the processes whose time to stop is over.
pub mod Journal
pub mod Expiry
pub mod Writer
pub mod Removal
pub mod Journals
pub mod Worker
