-- ===== src/Client.antt =====
-- src/client.cpp.
pub mod Diagnostics
pub mod Receiving
pub mod Control
pub mod Sending
