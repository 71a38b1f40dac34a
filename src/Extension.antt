-- ===== src/Extension.antt =====
-- The objects of src/ext/_ppmdmodule.c: what __init__ makes of its arguments, encode and flush, and
-- the buffers behind decode.
pub mod Arguments
pub mod Encoder
pub mod Room
pub mod Stream
pub mod Written
pub mod Sent
pub mod Engines
pub mod RoundTrip
pub mod Decoders
pub mod Ready
pub mod Paired
pub mod Input
pub mod Queue
pub mod Unread
pub mod Kept
