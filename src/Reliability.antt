-- ===== src/Reliability.antt =====
-- include/reliability.hpp and src/reliability.cpp: the receiver's record of the chunks, and the
-- sender's window.
pub mod State
pub mod Bitmap
pub mod Receiver
pub mod Sender
pub mod Agreement
