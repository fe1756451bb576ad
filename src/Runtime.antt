-- ===== src/Runtime.antt =====
-- The package lcl_fastapi.runtime: state files, process identities, leases and their owners, and the
-- controller.
pub mod State
pub mod Lease
pub mod Controller
pub mod Observer
pub mod Reload
pub mod Service
