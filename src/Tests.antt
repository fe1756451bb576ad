-- ===== src/Tests.antt =====
-- The theorems at concrete inputs, and runs of the definitions.
mod Page
mod Desk
mod Monitor
mod Control
mod Reloading
mod Files
mod Shared
mod Journals
mod Workers
mod Starts
mod Rendered
