-- ===== src/Ppmd8/TextArea.antt =====
-- ExpandTextArea, which gives free units at the start of the units back to the text, and
-- GetUsedMemory. `none` stands for a loop that does not end within its fuel.
use pyppmd.Base.{
  ℕ, zero, suc, ◌+◌, ◌-◌, ◌*◌, ◌^◌, Option, none, some, ◌>>=◌, List, ◌==◌, if◌then◌else◌, get_or,
  set, replicate, u32,
}
use pyppmd.Base.Memory.{load32}
use pyppmd.Ppmd7.State.{num_indexes, unit_size, ptr_diff, u2b, sub32}
use pyppmd.Ppmd8.State.{
  Ppmd8, u2i, i2u, free_list_at, put32, node_stamp, node_next, node_nu, empty_node,
}

-- The free nodes from `node` on are stamped, and counted by their index.
unfoldable pub stamp_nodes : ℕ → Ppmd8 → (node : ℕ) → (count : List ℕ) → Option (List ℕ × Ppmd8)
stamp_nodes zero p node count = none
stamp_nodes (suc fuel) p node count =
    let q = put32 p node 0 in
    let i = u2i q (node_nu q node) in
    let rest =
      stamp_nodes fuel q (node + node_nu q node * unit_size)
        (set count i (u32 (get_or count i 0 + 1))) in
    if node_stamp p node == empty_node then rest else some (count, record p { units_start = node })

-- A link is that of a free list, 0, or the place of a node's.
unfoldable pub linked : Ppmd8 → (i place : ℕ) → ℕ
linked p i place = if place == 0 then free_list_at p i else load32 p.mem place

unfoldable pub relink : Ppmd8 → (i place v : ℕ) → Ppmd8
relink p i place v =
    if place == 0 then record p { free_list = set p.free_list i v } else put32 p place v

-- `while (node->Stamp == 0)`: stamped nodes are taken out, `count` of them at most.
unfoldable pub unlink_run : ℕ → Ppmd8 → (i place : ℕ) → ℕ × Ppmd8
unfolding linked relink
unlink_run zero p i place = (0, p)
unlink_run (suc count) p i place =
    let node = linked p i place in
    let q = relink p i place (node_next p node) in
    let rest =
      unlink_run count
        (record q { stamps = set q.stamps i (u32 (get_or q.stamps i 0 + 2 ^ 32 - 1)) }) i place in
    if node_stamp p node == 0 then rest else (suc count, p)

-- The stamped nodes of one free list.
unfoldable pub unlink_list : ℕ → Ppmd8 → (i place count : ℕ) → Option Ppmd8
unfolding unlink_run
unlink_list zero p i place count = none
unlink_list (suc fuel) p i place count =
    let (count', q) = unlink_run count p i place in
    let rest = unlink_list fuel q i (linked q i place + 4) count' in
    if count == 0 then some p else rest

unfoldable pub unlink_lists : ℕ → Ppmd8 → (i : ℕ) → (count : List ℕ) → Option Ppmd8
unfolding unlink_list
unlink_lists zero p i count = some p
unlink_lists (suc left) p i count =
    unlink_list p.size p i 0 (get_or count i 0) >>= λ q. unlink_lists left q (i + 1) count

unfoldable pub expand_text_area : Ppmd8 → Option Ppmd8
unfolding stamp_nodes unlink_lists
expand_text_area p =
    let guarded = if p.lo_unit == p.hi_unit then p else put32 p p.lo_unit 0 in
    stamp_nodes p.size guarded guarded.units_start (replicate num_indexes 0) >>= λ r.
    unlink_lists num_indexes r.1 0 r.0

-- The units in the free lists, from index `i` on.
unfoldable pub free_total : ℕ → Ppmd8 → (i v : ℕ) → ℕ
free_total zero p i v = v
free_total (suc left) p i v = free_total left p (i + 1) (u32 (v + get_or p.stamps i 0 * i2u p i))

unfoldable pub get_used_memory : Ppmd8 → ℕ
unfolding free_total
get_used_memory p =
    sub32 (sub32 (sub32 p.size (ptr_diff p.hi_unit p.lo_unit)) (ptr_diff p.units_start p.text))
      (u2b (free_total num_indexes p 0 0))
