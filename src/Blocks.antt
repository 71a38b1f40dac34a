-- ===== src/Blocks.antt =====
-- The output of a call: src/lib/buffer/blockoutput.h, and the byte writer of Buffer.c that fills it.
pub mod Buffer
pub mod Copy
pub mod Invariant
pub mod Output
pub mod Sizes
pub mod Reader
