-- ===== src/Ppmd8/Glue.antt =====
-- GlueFreeBlocks. `none` means that a loop did not end within its fuel, which is the size of the
-- memory: each round of each loop takes another block of it.
use pyppmd.Base.{
  ℕ, zero, suc, ◌+◌, ◌-◌, ◌*◌, ◌^◌, Option, none, some, ◌>>=◌, ◌==◌, ltb, if◌then◌else◌, set,
  replicate, u32,
}
use pyppmd.Ppmd7.State.{num_indexes, unit_size}
use pyppmd.Ppmd8.State.{Ppmd8, free_list_at, put32, node_stamp, node_next, node_nu, empty_node}
use pyppmd.Ppmd8.Alloc.{insert_node, insert_units}

-- The list under construction: its head, and the place of its last link, 0 for the head itself.
pub record Chain : Type 0 where
  pub model : Ppmd8
  pub head : ℕ
  pub prev : ℕ

-- `*prev = v`
unfoldable pub link : Chain → (v : ℕ) → Chain
link g v =
    if g.prev == 0 then record g { head = v } else record g { model = put32 g.model g.prev v }

-- The node takes in the free nodes behind it.
unfoldable pub glue_node : ℕ → Ppmd8 → (node : ℕ) → Option Ppmd8
glue_node zero p node = none
glue_node (suc fuel) p node =
    let node2 = node + node_nu p node * unit_size in
    let q = put32 p (node + 8) (u32 (node_nu p node + node_nu p node2)) in
    let rest = glue_node fuel (put32 q (node2 + 8) 0) node in
    if node_stamp p node2 == empty_node then rest else some p

-- One free list, whose nodes that have units left are linked.
unfoldable pub glue_list : ℕ → Chain → (next : ℕ) → Option Chain
unfolding link glue_node
glue_list zero g next = none
glue_list (suc fuel) g next =
    let skipped = glue_list fuel g (node_next g.model next) in
    let linked = link g next in
    let rest = glue_node g.model.size linked.model next >>= λ q.
    glue_list fuel (record { model = q; head = linked.head; prev = next + 4 }) (node_next q next) in
    if next == 0 then some g else if node_nu g.model next == 0 then skipped else rest

unfoldable pub glue_lists : ℕ → Chain → (i : ℕ) → Option Chain
unfolding glue_list
glue_lists zero g i = some g
glue_lists (suc left) g i =
    let p = g.model in
    let cleared = record g { model = record p { free_list = set p.free_list i 0 } } in
    glue_list p.size cleared (free_list_at p i) >>= λ g'. glue_lists left g' (i + 1)

-- Blocks of more than 128 units are cut up.
unfoldable pub insert_large : ℕ → Ppmd8 → (node nu : ℕ) → Option Ppmd8
insert_large zero p node nu = none
insert_large (suc fuel) p node nu =
    let rest =
      insert_large fuel (insert_node p node (num_indexes - 1)) (node + 128 * unit_size)
        (nu - 128) in
    if ltb 128 nu then rest else some (insert_units p node nu)

unfoldable pub fill_lists : ℕ → Ppmd8 → (head : ℕ) → Option Ppmd8
unfolding insert_large
fill_lists zero p head = none
fill_lists (suc fuel) p head =
    let next = node_next p head in
    let nu = node_nu p head in
    let skipped = fill_lists fuel p next in
    let rest = insert_large p.size p head nu >>= λ q. fill_lists fuel q next in
    if head == 0 then some p else if nu == 0 then skipped else rest

unfoldable pub glue_free_blocks : Ppmd8 → Option Ppmd8
unfolding glue_lists fill_lists
glue_free_blocks p =
    let q = record p { glue_count = 2 ^ 13; stamps = replicate num_indexes 0 } in
    let guarded = if q.lo_unit == q.hi_unit then q else put32 q q.lo_unit 0 in
    glue_lists num_indexes (record { model = guarded; head = 0; prev = 0 }) 0 >>= λ g.
    let ended = link g 0 in fill_lists p.size ended.model ended.head
