-- ===== src/Threads.antt =====
-- The hand-over between the decoding thread and its caller: src/lib/buffer/ThreadDecoder.c.
pub mod Control
pub mod Clock
pub mod Order
pub mod Work
pub mod Calls
pub mod Safety
pub mod Plain
pub mod Replay
