-- ===== src/Ppmd8.antt =====
-- The PPMd var.I model of src/lib/ppmd/Ppmd8.c, Ppmd8Enc.c and Ppmd8Dec.c, without FREEZE mode,
-- which the library is not built with.
pub mod State
pub mod Tables
pub mod Alloc
pub mod Glue
pub mod Units
pub mod TextArea
pub mod Restart
pub mod Refresh
pub mod CutOff
pub mod Restore
pub mod Successors
pub mod Reduce
pub mod Update
pub mod Rescale
pub mod Escape
pub mod Symbols
pub mod Encode
pub mod Decode
pub mod Accounts
pub mod FreeLists
pub mod Fresh
pub mod Agree
pub mod Message
pub mod Initial
