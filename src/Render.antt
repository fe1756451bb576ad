-- ===== src/Render.antt =====
-- The package lcl_fastapi.render: checked settings, and the text of an Nginx and a systemd file.
pub mod Validation
pub mod Quote
pub mod Reader
pub mod Directives
pub mod Lines
pub mod Nginx
pub mod Systemd
