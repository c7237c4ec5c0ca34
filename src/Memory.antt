-- ===== src/Memory.antt =====
-- speakeasy/memmgr.py
pub mod Pages
pub mod Tag
pub mod Engine
pub mod State
pub mod Manager
pub mod Search
pub mod Invariant
mod Tests
