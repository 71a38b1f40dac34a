-- ===== src/Lib.antt =====
-- The PPMd compression library of pyppmd (lib/ppmd in the repository's src folder).
--
-- Parts and files:
--
-- - RangeCoder: the range coder of 7-Zip, src/lib/ppmd/Ppmd7Enc.c and Ppmd7Dec.c. Enc is the encoder
--   (Ppmd7z_RangeEnc_Init, RangeEnc_ShiftLow, RangeEnc_Encode, RangeEnc_EncodeBit_0 and _1,
--   Ppmd7z_RangeEnc_FlushData), Dec the decoder (Ppmd7z_RangeDec_Init, Range_GetThreshold,
--   Range_Normalize, Range_Decode, Range_DecodeBit). Ops puts coding steps in a row. Value reads bytes
--   as a number, Shift, Narrow, Encodes and Flush follow the encoder, Start, Decodes and Answers the
--   decoder, and RoundTrip joins them.
-- - Ppmd7: the model of variant H, src/lib/ppmd/Ppmd7.c with Ppmd7.h and Ppmd.h. State is CPpmd7,
--   Tables is Ppmd7_Construct, Ppmd7_Free and Ppmd7_Alloc, Alloc, Glue and Units are the
--   suballocator, Restart is RestartModel and Ppmd7_Init, Successors, Update and Rescale are the
--   functions of those names, Escape is Ppmd7_MakeEscFreq with the SEE contexts and the binary
--   probabilities, Symbols is NextContext and the functions Ppmd7_Update1, Update1_0, UpdateBin and
--   Update2, Encode and Decode are Ppmd7_EncodeSymbol and Ppmd7_DecodeSymbol.
--   Encode and Decode code a symbol by calls of the range coder, and then update the model. Agree
--   compares the two, and Message puts symbols in a row, as the callers do. Fresh and Initial follow
--   what Ppmd7_Init writes, FreeLists and Bounds are about the suballocator's lists and the binary
--   probabilities.
-- - Carryless: the range coder of variant I, which has no carries, src/lib/ppmd/Ppmd8Enc.c and
--   Ppmd8Dec.c up to their symbol coders. Coder is the encoder (Ppmd8_RangeEnc_Init, RangeEnc_Encode,
--   RangeEnc_EncodeBit_0 and _1, Ppmd8_RangeEnc_FlushData) and the decoder (Ppmd8_RangeDec_Init,
--   RangeDec_GetThreshold, RangeDec_Decode) with the loop that both have, RangeEnc_Normalize on the
--   encoder's side. Digits and Settle are about the loop's condition, Run about one round, Normalize
--   about the loop; Followed says what it is that the decoder follows the encoder, Ops puts steps in
--   a row, Narrow and Answer are about one step, and RoundTrip joins them.
-- - Ppmd8: the model of variant I, src/lib/ppmd/Ppmd8.c with Ppmd8.h. State is CPpmd8 less the range
--   coder's fields, Tables is Ppmd8_Construct, Ppmd8_Free and Ppmd8_Alloc, Alloc, Glue, Units and
--   TextArea are the suballocator with its stamps (ExpandTextArea and GetUsedMemory in TextArea),
--   Restart is RestartModel and Ppmd8_Init, Refresh, CutOff and Restore are what happens when the
--   memory is used up, Successors, Reduce, Update and Rescale are CreateSuccessors, ReduceOrder,
--   UpdateModel and Rescale, Escape is Ppmd8_MakeEscFreq and Ppmd8_GetBinSumm, Symbols is NextContext
--   and the functions Ppmd8_Update1, Update1_0, UpdateBin and Update2, and Encode and Decode are
--   Ppmd8_EncodeSymbol and Ppmd8_DecodeSymbol, on a model and a coder of Carryless. What variant I
--   has in common with variant H (states, SEE contexts, masks, searches) is taken from Ppmd7.
--   Agree compares the two, and Message puts symbols in a row.
--   Fresh and Initial are about what Ppmd8_Init writes, FreeLists and Accounts about the free lists and the memory
--   that GetUsedMemory counts.
-- - Coding: what the comparisons of both variants' symbol coders have in common: what a decoded symbol
--   is, a range coder and a symbol coder as interfaces, that a part of an encoder and of a decoder
--   perform the same steps (Coded), and messages of several symbols (Message).
-- - Blocks: src/lib/buffer/blockoutput.h and Buffer.c. Buffer is OutputBuffer_InitAndGrow,
--   OutputBuffer_InitWithSize, OutputBuffer_Grow, OutputBuffer_ReachedMaxLength, OutputBuffer_Finish
--   and Writer, Reader is Reader. Copy, Invariant and Output follow the bytes from Writer to the
--   object that is returned, and Sizes compares the sizes of the blocks with the table in the comment
--   of blockoutput.h. Python's bytes objects and lists come from arguments.
-- - Threads: src/lib/buffer/ThreadDecoder.c, the decoding thread and the calls that hand it input.
--   Control has the worker (Ppmd7T_decode_run, Ppmd8T_decode_run, Ppmd_thread_Reader) and the caller
--   (Ppmd_thread_decode_init, Ppmd7T_decode, Ppmd8T_decode, Ppmd7T_Free, Ppmd8T_Free) as steps of one
--   state; Order puts the steps in any order and says what holds between them, Work and Calls keep
--   it, and Safety draws the consequences. Plain is the decoder without threads, Replay compares the
--   two, and Clock has the times of ppmd_timedwait. The symbol decoder is any process that asks for bytes.
--   pthread_create may fail, and the calls do not look at that; Ppmd7T_Free and Ppmd8T_Free are two
--   steps, between which the worker that they wake may go on.
-- - Extension: src/ext/_ppmdmodule.c, the objects that Python sees. Arguments is __init__ of the
--   encoders (clamp_max_order, clamp_memory_size, Ppmd7Encoder_init, Ppmd8Encoder_init), Encoder is
--   encode and flush (Ppmd7Encoder_encode, Ppmd7Encoder_flush and those of Ppmd8Encoder), on the
--   symbol encoders, the range coders and the output buffer of the other parts; Input is the input
--   buffer of Ppmd7Decoder_decode, and unused_data, Decoders is __init__ of the decoders
--   (Ppmd7Decoder_init, Ppmd8Decoder_init), whose thread control is that of Threads. Room, Stream, Written, Sent and Engines follow
--   the bytes from a symbol to what encode and flush return, RoundTrip hands them to the decoders,
--   Ready and Paired are about __init__, and Queue, Unread and Kept about the input buffer.
-- - Base: tests, lists, casts and shifts of C, and Base.Memory, the bytes of a model's block.
-- - Tests: the theorems at concrete inputs, and runs.
--
-- How the code is modelled: a struct is a record, and a function that changes it returns the new one.
-- Numbers are natural numbers with each wrap-around written out. Pointers into the memory of a model
-- are offsets from Base, as REF makes them on a machine with 64-bit pointers; memory is a function
-- from addresses to bytes, read and written in little-endian order, so that the overlays of the code
-- (a context's only state over SummFreq, a free node over a context) are those of the source. The
-- null pointer is offset 0, which is no object's, since AlignOffset is at least 1. A stream is the
-- list of bytes that pass through IByteOut_Write or IByteIn_Read, and reading past the end gives 0,
-- as Interface.h says. Reads outside of a table, which C leaves undefined, give 0.
--
-- Fuel: a loop that the source does not bound runs on fuel, and `none` is a loop that does not end
-- within it. The normalising loop of the encoder has 4, as a range above 0 reaches 2 ^ 24 in three
-- rounds. A search in a context has 256, the most states that it can hold. A walk up the suffixes has
-- 256, where the order is at most 64. The loops of GlueFreeBlocks have the size of the memory, as
-- each round takes another block of it; so have the loops of ExpandTextArea, and the rounds of CutOff
-- in RestoreModel. The normalising loops of Carryless have 5: of a range above 0 four rounds leave
-- one that is large enough.
--
-- Not modelled: the allocator behind IAlloc (an argument of `alloc`), the FREEZE mode of Ppmd8.c,
-- which the library is not built with, the reference counts of Python's objects, the
-- clocks behind the caller's wait, and of the bindings to Python the types, the parsing of arguments,
-- the locks, the freeing of memory and the loop of decode around the thread control; win_pthreads.h is a copy of another project's library.
pub mod Base
pub mod Blocks
pub mod RangeCoder
pub mod Carryless
pub mod Coding
pub mod Extension
pub mod Ppmd7
pub mod Ppmd8
pub mod Threads
mod Tests
