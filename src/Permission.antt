-- ===== src/Permission.antt =====
-- lib/src/permission: who may run what. One module for each part of permission.cpp and
-- permission_requests.cpp, over the shared types of types.h and tool.h.
pub mod Types
pub mod Bash
pub mod Path
pub mod Mode
pub mod Git
pub mod Gate
pub mod Registry
pub mod Broker
