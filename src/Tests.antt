-- ===== src/Tests.antt =====
-- The theorems at concrete inputs, and runs of the definitions.
mod Blocks
mod Carryless
mod Coder
mod Model
mod Message
mod Objects
mod Objects8
mod Input
mod Threads
mod Variant
mod Decoders
