-- ===== src/Ppmd7/Agree.antt =====
-- Ppmd7_EncodeSymbol and Ppmd7_DecodeSymbol agree: Steps is about single coding steps, First about
-- the context that a symbol is looked for first, Masked and Lookup about the contexts escaped to,
-- and Symbol about the whole.
pub mod Steps
pub mod First
pub mod Masked
pub mod Lookup
pub mod Round
pub mod Chain
pub mod Missed
pub mod Start
pub mod Binary
pub mod Symbol
