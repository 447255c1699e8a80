-- ===== src/Protocol.antt =====
-- include/protocol.hpp, include/common.hpp and src/protocol.cpp: the packet formats.
pub mod Types
pub mod Bytes
pub mod Sizes
pub mod Header
pub mod Payloads
