-- ===== src/Examples.antt =====
-- Tests and examples at concrete inputs.
mod Protocol
mod Reliability
mod Server
mod Transfer
mod FileIo
mod System
mod Client
mod Resend
