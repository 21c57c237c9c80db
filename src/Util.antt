-- ===== src/Util.antt =====
-- lib/src/util/util.cpp: the text routines that the other parts call.
pub mod Utf8
pub mod Base64
pub mod Truncate
pub mod ProviderError
pub mod Capabilities
pub mod AtomicWrite
pub mod Subprocess
mod Examples
