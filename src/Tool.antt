-- ===== src/Tool.antt =====
-- The built-in tools of lib/src/tool/tools.cpp.
pub mod Shell
pub mod Run
pub mod Paths
pub mod Read
pub mod Edit
pub mod Symbols
mod Examples
