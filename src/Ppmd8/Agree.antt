-- ===== src/Ppmd8/Agree.antt =====
-- Ppmd8_EncodeSymbol and Ppmd8_DecodeSymbol agree: Steps is about single coding steps, Round about
-- one round of the loop of escapes and Chain about the loop, Start and Binary about the context that
-- a symbol is looked for first, and Symbol about the whole.
pub mod Steps
pub mod Round
pub mod Chain
pub mod Start
pub mod Binary
pub mod Symbol
