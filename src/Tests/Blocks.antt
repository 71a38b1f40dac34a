-- ===== src/Tests/Blocks.antt =====
-- The buffers at three bytes of output and at two small blocks.
use pyppmd.Base.{
  ◌≡◌, refl, ◌∷◌, [], arith, true, some, none, replicate, length-replicate, length, ap, sym, ◌∙◌,
  take, join,
}
use mathlib.Core.Option.{some-injective}
use pyppmd.RangeCoder.Dec.{read}
use pyppmd.Blocks.Buffer.{Output, NewBytes, init_and_grow, first_block, finish, writer}
use pyppmd.Blocks.Invariant.{IsFilled, IsWithin, IsNewBytes}
use pyppmd.Blocks.Output.{IsFinished, finish-IsFinished, Steps, start, write, Steps-IsFinished}
use pyppmd.Blocks.Sizes.{limited, whole_size, Steps-allocated}
use pyppmd.Blocks.Reader.{InBuffer, reader, unread, reader-read}

abbrev zeros : NewBytes
zeros n = some (replicate n 0)

zeros-IsNewBytes : IsNewBytes zeros
zeros-IsNewBytes n b h = ap length (sym (some-injective _ _ h)) ∙ length-replicate n 0

abbrev first : Output
first = record {
  buffer = record { list = (0 ∷ 0 ∷ 0 ∷ []) ∷ []; allocated = 3; max_length = some 3 };
  ob = record { dst = 0; size = 3; pos = 0 };
}

first_is : init_and_grow zeros true (some 3) ≡ some first
unfolding init_and_grow first_block
first_is = refl

-- Two bytes are written.
abbrev second : Output
second = writer (writer first 8) 9

second-Steps : Steps first second (8 ∷ 9 ∷ [])
unfolding writer
second-Steps = write 9 (write 8 start (omega arith)) (omega arith)

Steps-IsFinished_example : IsFinished zeros (8 ∷ 9 ∷ []) (finish zeros second) × IsWithin (some 3) 2
Steps-IsFinished_example =
    Steps-IsFinished zeros zeros true (some 3) zeros-IsNewBytes zeros-IsNewBytes first_is
      second-Steps

Steps-allocated_example :
    second.buffer.allocated ≡ limited (some 3) (whole_size (length second.buffer.list))
Steps-allocated_example = Steps-allocated zeros true (some 3) zeros-IsNewBytes first_is second-Steps

abbrev two_blocks : Output
two_blocks = record {
  buffer = record { list = (1 ∷ 2 ∷ []) ∷ (3 ∷ 4 ∷ 0 ∷ []) ∷ []; allocated = 5; max_length = none };
  ob = record { dst = 1; size = 3; pos = 2 };
}

two_blocks-IsFilled : IsFilled two_blocks (1 ∷ 2 ∷ 3 ∷ 4 ∷ [])
unfolding take join
two_blocks-IsFilled = record {
  full = (1 ∷ 2 ∷ []) ∷ [];
  last = 3 ∷ 4 ∷ 0 ∷ [];
  list = refl;
  dst = refl;
  size = refl;
  pos_le = omega arith;
  written = refl;
  allocated = refl;
  within = tt;
  small = omega arith;
}

finish-IsFinished_example : IsFinished zeros (1 ∷ 2 ∷ 3 ∷ 4 ∷ []) (finish zeros two_blocks)
finish-IsFinished_example = finish-IsFinished zeros zeros-IsNewBytes two_blocks-IsFilled

abbrev input : InBuffer
input = record { src = 5 ∷ 6 ∷ []; size = 2; pos = 1 }

reader-read_example :
    ((reader input).0 ≡ (read (unread input)).0)
    × (unread (reader input).1 ≡ (read (unread input)).1)
reader-read_example = reader-read input refl (omega arith)
