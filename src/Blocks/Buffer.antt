-- ===== src/Blocks/Buffer.antt =====
-- The functions of blockoutput.h and Writer of Buffer.c. Python's PyBytes_FromStringAndSize(NULL, n)
-- is an argument: the bytes of a fresh object, `none` for NULL; so is the answer of PyList_New and
-- PyList_Append. A result `none` is -1 or NULL, with which the callers give up.
use pyppmd.Base.{
  ℕ, zero, suc, ◌+◌, ◌-◌, ◌*◌, ◌^◌, Bool, false, ◌&&◌, ◌||◌, Option, none, some, ◌>>=◌, List, [],
  ◌∷◌, ◌++◌, ltb, ◌==◌, if◌then◌else◌, get_or, set, length,
}

-- `dst` is the place of the block in the list, whose bytes are written through it.
pub record OutBuffer : Type 0 where
  pub dst : ℕ
  pub size : ℕ
  pub pos : ℕ

-- A max_length of `none` is a negative one.
pub record BlocksOutputBuffer : Type 0 where
  pub list : List (List ℕ)
  pub allocated : ℕ
  pub max_length : Option ℕ

pub record Output : Type 0 where
  pub buffer : BlocksOutputBuffer
  pub ob : OutBuffer

abbrev pub NewBytes : Type 0
NewBytes = ℕ → Option (List ℕ)

abbrev kb : ℕ
kb = 1024

abbrev mb : ℕ
mb = 1024 * 1024

-- `BUFFER_BLOCK_SIZE`
abbrev pub buffer_block_size : List ℕ
buffer_block_size =
    32 * kb
    ∷ 64 * kb
    ∷ 256 * kb
    ∷ mb
    ∷ 4 * mb
    ∷ 8 * mb
    ∷ 16 * mb
    ∷ 16 * mb
    ∷ 32 * mb
    ∷ 32 * mb
    ∷ 32 * mb
    ∷ 32 * mb
    ∷ 64 * mb
    ∷ 64 * mb
    ∷ 128 * mb
    ∷ 128 * mb
    ∷ 256 * mb
    ∷ []

-- `PY_SSIZE_T_MAX`
abbrev pub ssize_max : ℕ
ssize_max = 2 ^ 63 - 1

-- A first block of `size` bytes in a new list.
unfoldable pub first_block :
    NewBytes → (list_made : Bool) → (max_length : Option ℕ) → (size : ℕ) → Option Output
first_block new_bytes list_made max_length size = new_bytes size >>= λ b.
    if list_made
    then some (record {
      buffer = record { list = b ∷ []; allocated = size; max_length = max_length };
      ob = record { dst = 0; size = size; pos = 0 };
    })
    else none

unfoldable pub init_and_grow :
    NewBytes → (list_made : Bool) → (max_length : Option ℕ) → Option Output
unfolding first_block
init_and_grow new_bytes list_made none = first_block new_bytes list_made none (32 * kb)
init_and_grow new_bytes list_made (some m) =
    first_block new_bytes list_made (some m) (if ltb m (32 * kb) then m else 32 * kb)

unfoldable pub init_with_size : NewBytes → (list_made : Bool) → (init_size : ℕ) → Option Output
unfolding first_block
init_with_size new_bytes list_made init_size = first_block new_bytes list_made none init_size

-- More is allocated than the limit allows, which the source asserts against: without assertions the
-- next block would have a negative size, for which PyBytes_FromStringAndSize fails.
abbrev pub is_over : (max_length : Option ℕ) → (allocated : ℕ) → Bool
is_over none allocated = false
is_over (some m) allocated = ltb m allocated

-- What a limit that is not exceeded leaves of the size of a block.
unfoldable pub limit_size : (max_length : Option ℕ) → (allocated size : ℕ) → ℕ
limit_size none allocated size = size
limit_size (some m) allocated size = if ltb (m - allocated) size then m - allocated else size

unfoldable pub next_size : BlocksOutputBuffer → ℕ
unfolding limit_size
next_size buffer =
    let n = length buffer.list in
    limit_size buffer.max_length buffer.allocated
      (if ltb n (length buffer_block_size) then get_or buffer_block_size n 0 else 256 * mb)

unfoldable pub grow : NewBytes → (appended : Bool) → Output → Option Output
unfolding next_size
grow new_bytes appended p =
    let size = next_size p.buffer in
    let next = new_bytes size >>= λ b.
    if appended
    then some (record {
      buffer = record {
        list = p.buffer.list ++ b ∷ [];
        allocated = p.buffer.allocated + size;
        max_length = p.buffer.max_length;
      };
      ob = record { dst = length p.buffer.list; size = size; pos = 0 };
    })
    else none in
    if is_over p.buffer.max_length p.buffer.allocated
    then none
    else if ltb (ssize_max - p.buffer.allocated) size
    then none
    else next

-- A negative limit is never reached.
abbrev pub is_limit : (max_length : Option ℕ) → (allocated : ℕ) → Bool
is_limit none allocated = false
is_limit (some m) allocated = allocated == m

unfoldable pub reached_max_length : BlocksOutputBuffer → Bool
reached_max_length buffer = is_limit buffer.max_length buffer.allocated

-- `memcpy(dst + at, src, n)`
unfoldable pub memcpy : (dst : List ℕ) → (at : ℕ) → (src : List ℕ) → (n : ℕ) → List ℕ
memcpy dst at src zero = dst
memcpy dst at [] (suc n) = dst
memcpy dst at (x ∷ xs) (suc n) = memcpy (set dst at x) (at + 1) xs n

-- The blocks except the last one, and of that `pos` bytes.
unfoldable pub copy_blocks : (result : List ℕ) → (at : ℕ) → List (List ℕ) → (pos : ℕ) → List ℕ
unfolding memcpy
copy_blocks result at [] pos = result
copy_blocks result at (b ∷ []) pos = memcpy result at b pos
copy_blocks result at (b ∷ c ∷ bs) pos =
    copy_blocks (memcpy result at b (length b)) (at + length b) (c ∷ bs) pos

unfoldable pub finish : NewBytes → Output → Option (List ℕ)
unfolding copy_blocks
finish new_bytes p =
    let n = length p.buffer.list in
    if (n == 1 && p.ob.pos == p.ob.size) || (n == 2 && p.ob.pos == 0)
    then some (get_or p.buffer.list 0 [])
    else (new_bytes (p.buffer.allocated - (p.ob.size - p.ob.pos)) >>= λ result.
        some (copy_blocks result 0 p.buffer.list p.ob.pos))

-- `Writer`: a byte for which there is no room is dropped.
unfoldable pub writer : Output → (b : ℕ) → Output
writer p b =
    let block = get_or p.buffer.list p.ob.dst [] in
    if p.ob.size == p.ob.pos then p else record {
      buffer = record p.buffer { list = set p.buffer.list p.ob.dst (set block p.ob.pos b) };
      ob = record p.ob { pos = p.ob.pos + 1 };
    }
