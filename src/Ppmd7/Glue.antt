-- ===== src/Ppmd7/Glue.antt =====
-- GlueFreeBlocks. A node at `n` has Stamp and NU in its first four bytes, where a free block keeps
-- its link, and then Next and Prev. `none` means that a loop did not end within its fuel, which is
-- the size of the memory: each round of each loop takes another block of it.
use pyppmd.Base.{
  ℕ, zero, suc, ◌+◌, ◌-◌, ◌*◌, not, ◌||◌, Option, none, some, ◌>>=◌, ◌==◌, ltb, leb, if◌then◌else◌,
  set, u16, u32,
}
use pyppmd.Base.Memory.{load16, load32}
use pyppmd.Ppmd7.State.{Ppmd7, put16, put32, i2u, free_list_at, num_indexes, unit_size}
use pyppmd.Ppmd7.Alloc.{insert_node, insert_units}

abbrev node_nu : Ppmd7 → ℕ → ℕ
node_nu p n = load16 p.mem (n + 2)

abbrev node_next : Ppmd7 → ℕ → ℕ
node_next p n = load32 p.mem (n + 4)

abbrev node_prev : Ppmd7 → ℕ → ℕ
node_prev p n = load32 p.mem (n + 8)

-- One free list, put in front of the doubly-linked list that ends at `n`; with the new end.
unfoldable pub link_list : ℕ → Ppmd7 → (nu n next : ℕ) → Option (ℕ × Ppmd7)
link_list zero p nu n next = none
link_list (suc fuel) p nu n next =
    let linked = put32 (put32 p (next + 4) n) (n + 8) next in
    let next' = load32 linked.mem next in
    let rest = link_list fuel (put16 (put16 linked next 0) (next + 2) nu) nu next next' in
    if next == 0 then some (n, p) else rest

unfoldable pub link_lists : ℕ → Ppmd7 → (i n : ℕ) → Option (ℕ × Ppmd7)
unfolding link_list
link_lists zero p i n = some (n, p)
link_lists (suc left) p i n = do
  let cleared = record p { free_list = set p.free_list i 0 }
  (n', q) ← link_list p.size cleared (u16 (i2u p i)) n (free_list_at p i)
  link_lists left q (i + 1) n'

-- The block at `n` takes in the free blocks behind it.
unfoldable pub glue_block : ℕ → Ppmd7 → (n nu : ℕ) → Option Ppmd7
glue_block zero p n nu = none
glue_block (suc fuel) p n nu =
    let node2 = n + nu * unit_size in
    let nu' = u32 (nu + node_nu p node2) in
    let q = put32 p (node_prev p node2 + 4) (node_next p node2) in
    let r = put32 q (node_next q node2 + 8) (node_prev q node2) in
    let rest = glue_block fuel (put16 r (n + 2) nu') n nu' in
    if not (load16 p.mem node2 == 0) || leb 0x10000 nu' then some p else rest

unfoldable pub glue_blocks : ℕ → Ppmd7 → (head n : ℕ) → Option Ppmd7
unfolding glue_block
glue_blocks zero p head n = none
glue_blocks (suc fuel) p head n =
    let rest =
      glue_block p.size p n (node_nu p n) >>= λ q. glue_blocks fuel q head (node_next q n) in
    if n == head then some p else rest

-- Blocks of more than 128 units are cut up.
unfoldable pub insert_large : ℕ → Ppmd7 → (node nu : ℕ) → Option Ppmd7
insert_large zero p node nu = none
insert_large (suc fuel) p node nu =
    let rest =
      insert_large fuel (insert_node p node (num_indexes - 1)) (node + 128 * unit_size)
        (nu - 128) in
    if ltb 128 nu then rest else some (insert_units p node nu)

unfoldable pub fill_lists : ℕ → Ppmd7 → (head n : ℕ) → Option Ppmd7
unfolding insert_large
fill_lists zero p head n = none
fill_lists (suc fuel) p head n =
    let next = node_next p n in
    let rest = insert_large p.size p n (node_nu p n) >>= λ q. fill_lists fuel q head next in
    if n == head then some p else rest

unfoldable pub glue_free_blocks : Ppmd7 → Option Ppmd7
unfolding link_lists glue_blocks fill_lists
glue_free_blocks p = do
  let head = p.align_offset + p.size
  (n, q) ← link_lists num_indexes (record p { glue_count = 255 }) 0 head
  let ringed = put32 (put32 (put16 q head 1) (head + 4) n) (n + 8) head
  let guarded = if ringed.lo_unit == ringed.hi_unit then ringed else put16 ringed ringed.lo_unit 1
  glued ← glue_blocks p.size guarded head n
  fill_lists p.size glued head (node_next glued head)
