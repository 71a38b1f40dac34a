-- ===== src/RangeCoder.antt =====
-- The range coder of src/lib/ppmd/Ppmd7Enc.c and Ppmd7Dec.c (the coder of 7-Zip): the state of each
-- side and its operations. A stream is the sequence of bytes that go through IByteOut_Write and
-- IByteIn_Read. Intervals.antt has what the two sides agree on.
pub mod Enc
pub mod Dec
pub mod Value
pub mod Shift
pub mod Narrow
pub mod Ops
pub mod Encodes
pub mod Decodes
pub mod Answers
pub mod Flush
pub mod Start
pub mod RoundTrip
