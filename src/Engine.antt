-- ===== src/Engine.antt =====
-- Parts of `ContextBuilder` and `SessionEngine` of lib/src/engine/engine.cpp.
pub mod Repair
pub mod Runner
mod Examples
