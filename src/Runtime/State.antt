-- ===== src/Runtime/State.antt =====
-- src/lcl_fastapi/runtime/state.py: state records, process identities, and the two retried file
-- operations. psutil's process table and what each system call reports are parameters.
pub mod Value
pub mod Files
pub mod Atomic
pub mod Identity
