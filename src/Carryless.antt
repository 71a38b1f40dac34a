-- ===== src/Carryless.antt =====
-- The range coder of variant I, without carries: src/lib/ppmd/Ppmd8Enc.c, lines 12 to 58, and
-- Ppmd8Dec.c, lines 12 to 49.
pub mod Coder
pub mod Digits
pub mod Settle
pub mod Run
pub mod Followed
pub mod Normalize
pub mod Ops
pub mod Narrow
pub mod Answer
pub mod RoundTrip
