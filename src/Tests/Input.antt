-- ===== src/Tests/Input.antt =====
-- The input buffer of a decoder object that holds two bytes behind two that have been read.
use pyppmd.Base.{
  refl, sym, ap, ◌∙◌, false, arith, [], ◌∷◌, some, length, drop, replicate, length-replicate,
}
use mathlib.Core.Option.{some-injective}
use pyppmd.Blocks.Buffer.{memcpy}
use pyppmd.Extension.Input.{Unconsumed, Malloc, Move, Prepared, prepare, keep_rest}
use pyppmd.Extension.Queue.{IsHeld, IsMalloc, IsMove, IsSupplied}
use pyppmd.Extension.Unread.{IsPrepared, prepare-IsPrepared}
use pyppmd.Extension.Kept.{IsKept, keep_rest-IsKept}

abbrev malloc : Malloc
malloc n = some (replicate n 0)

malloc-IsMalloc : IsMalloc malloc
malloc-IsMalloc n b h = ap length (sym (some-injective _ _ h)) ∙ length-replicate n 0

abbrev move : Move
move b from n = memcpy b 0 (drop from b) n

move-IsMove : IsMove move
move-IsMove b from n apart room = refl

abbrev left : Unconsumed
left = record {
  input_buffer = some (5 ∷ 6 ∷ 7 ∷ 8 ∷ []);
  input_buffer_size = 4;
  in_begin = 2;
  in_end = 4;
}

left-IsHeld : IsHeld left (7 ∷ 8 ∷ [])
left-IsHeld = record {
  pre = 5 ∷ 6 ∷ [];
  post = [];
  shape = refl;
  start = refl;
  stop = refl;
  size = refl;
}

prepare-IsPrepared_example :
    IsPrepared malloc malloc-IsMalloc move move-IsMove left
      (7 ∷ 8 ∷ [])
      (9 ∷ [])
      (prepare malloc move left (9 ∷ []))
prepare-IsPrepared_example =
    prepare-IsPrepared malloc malloc-IsMalloc move move-IsMove (9 ∷ []) left-IsHeld
      (λ over fits. omega arith)

-- Bytes that were handed in, of which one has been read.
abbrev handed : Prepared
handed = record {
  use_input_buffer = false;
  input = record { src = 1 ∷ 2 ∷ 3 ∷ []; size = 3; pos = 1 };
  held = record left { in_begin = 4 };
}

handed-IsSupplied : IsSupplied handed (1 ∷ 2 ∷ 3 ∷ [])
handed-IsSupplied = record {
  tail = [];
  src = refl;
  size = refl;
  used = λ e. cc e;
  unused = λ e. record {
    pre = 5 ∷ 6 ∷ 7 ∷ 8 ∷ [];
    post = [];
    shape = refl;
    start = refl;
    stop = refl;
    size = refl;
  };
}

keep_rest-IsKept_example :
    IsKept malloc malloc-IsMalloc handed (1 ∷ 2 ∷ 3 ∷ []) (keep_rest malloc handed)
keep_rest-IsKept_example = keep_rest-IsKept malloc malloc-IsMalloc handed-IsSupplied (omega arith)
