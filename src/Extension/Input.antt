-- ===== src/Extension/Input.antt =====
-- The input of decode: the bytes that an earlier call left, and those that are handed in. Where C
-- points into a block, `src` is the block from there on. PyMem_Malloc is an argument: the bytes of a
-- fresh block, `none` for NULL.
use pyppmd.Base.{
  ℕ, ◌+◌, ◌-◌, Bool, true, false, Option, none, some, ◌>>=◌, List, [], ltb, ◌==◌, if◌then◌else◌,
  length, drop, take,
}
use pyppmd.Blocks.Buffer.{memcpy}
use pyppmd.Blocks.Reader.{InBuffer}

-- Fields of the decoder objects; `none` is NULL.
pub record Unconsumed : Type 0 where
  pub input_buffer : Option (List ℕ)
  pub input_buffer_size : ℕ
  pub in_begin : ℕ
  pub in_end : ℕ

abbrev pub Malloc : Type 0
Malloc = ℕ → Option (List ℕ)

-- What `memcpy(block, block + from, n)` leaves of a block. Where the areas overlap, C does not say.
abbrev pub Move : Type 0
Move = (block : List ℕ) → (from n : ℕ) → List ℕ

abbrev pub contents : Option (List ℕ) → List ℕ
contents none = []
contents (some b) = b

-- The block of an object.
abbrev pub block : Unconsumed → List ℕ
block s = contents s.input_buffer

-- Whether the input buffer is used, what the decoder reads, and the object's fields.
pub record Prepared : Type 0 where
  pub use_input_buffer : Bool
  pub input : InBuffer
  pub held : Unconsumed

-- Room for `n` bytes behind the unconsumed ones.
unfoldable pub make_room : Malloc → Move → Unconsumed → (n : ℕ) → Option Unconsumed
unfolding memcpy
make_room malloc move s n =
    let used_now = s.in_end - s.in_begin in
    let avail_now = s.input_buffer_size - s.in_end in
    let avail_total = s.input_buffer_size - used_now in
    let unread = drop s.in_begin (block s) in
    if ltb avail_total n
    then (malloc (used_now + n) >>= λ tmp. some (record {
      input_buffer = some (memcpy tmp 0 unread used_now);
      input_buffer_size = used_now + n;
      in_begin = 0;
      in_end = used_now;
    }))
    else if ltb avail_now n
    then some (record s {
      input_buffer = some (move (block s) s.in_begin used_now);
      in_begin = 0;
      in_end = used_now;
    })
    else some s

-- `Copy data to input buffer`
unfoldable pub append_data : Unconsumed → (bytes : List ℕ) → Prepared
unfolding memcpy
append_data s bytes =
    let b = memcpy (block s) s.in_end bytes (length bytes) in
    record {
      use_input_buffer = true;
      input = record {
        src = drop s.in_begin b;
        size = s.in_end - s.in_begin + length bytes;
        pos = 0;
      };
      held = record s { input_buffer = some b; in_end = s.in_end + length bytes };
    }

-- `Prepare input buffer w/wo unconsumed data`
unfoldable pub prepare : Malloc → Move → Unconsumed → (bytes : List ℕ) → Option Prepared
unfolding make_room append_data
prepare malloc move s bytes =
    if s.in_begin == s.in_end
    then some (record {
      use_input_buffer = false;
      input = record { src = bytes; size = length bytes; pos = 0 };
      held = s;
    })
    else if length bytes == 0
    then some (record {
      use_input_buffer = true;
      input = record { src = drop s.in_begin (block s); size = s.in_end - s.in_begin; pos = 0 };
      held = s;
    })
    else (make_room malloc move s (length bytes) >>= λ t. some (append_data t bytes))

-- A block that is too small is given back, and one is got where there is none.
unfoldable pub fitting : Malloc → Unconsumed → (n : ℕ) → Option Unconsumed
fitting malloc s n =
    let fresh =
      malloc n >>= λ b. some (record s { input_buffer = some b; input_buffer_size = n }) in
    elim s.input_buffer [
      | none ↦ fresh
      | some b ↦ if ltb s.input_buffer_size n then fresh else some s
    ]

-- `Unconsumed input data`, behind the decoding; `none` is a MemoryError.
unfoldable pub keep_rest : Malloc → Prepared → Option Unconsumed
unfolding memcpy fitting
keep_rest malloc r =
    let s = r.held in
    let n = r.input.size - r.input.pos in
    let kept = fitting malloc s n >>= λ t. some (record t {
      input_buffer = some (memcpy (block t) 0 (drop r.input.pos r.input.src) n);
      in_begin = 0;
      in_end = n;
    }) in
    if r.input.pos == r.input.size
    then some (if r.use_input_buffer then record s { in_begin = 0; in_end = 0 } else s)
    else if r.use_input_buffer
    then some (record s { in_begin = s.in_begin + r.input.pos })
    else kept

-- What is unconsumed.
abbrev pub unconsumed : Unconsumed → List ℕ
unconsumed s = take (s.in_end - s.in_begin) (drop s.in_begin (block s))

-- `Ppmd7_unused_data_get` and `unused_data_get` make an object of these bytes.
unfoldable pub unused_data : (eof : Bool) → Unconsumed → List ℕ
unused_data eof s = if eof then unconsumed s else []
