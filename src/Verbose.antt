-- ===== src/Verbose.antt =====
-- The package lcl_fastapi.verbose: the service-wide switch of file diagnostics, which all processes
-- of a service share by a file and each caches for itself.
pub mod Storage
pub mod Control
pub mod Steps
pub mod Consistent
pub mod Agreement
pub mod Observations
pub mod Process
