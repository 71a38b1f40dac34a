-- ===== src/Ppmd7.antt =====
-- The PPMd var.H model of src/lib/ppmd/Ppmd7.c, Ppmd7Enc.c and Ppmd7Dec.c.
pub mod State
pub mod Tables
pub mod Alloc
pub mod FreeLists
pub mod Glue
pub mod Units
pub mod Restart
pub mod Successors
pub mod Update
pub mod Rescale
pub mod Symbols
pub mod Escape
pub mod Bounds
pub mod Fresh
pub mod Encode
pub mod Decode
pub mod Agree
pub mod Message
pub mod Initial
