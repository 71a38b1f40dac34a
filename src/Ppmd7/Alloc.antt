-- ===== src/Ppmd7/Alloc.antt =====
-- The free lists of src/lib/ppmd/Ppmd7.c: InsertNode, RemoveNode, SplitBlock.
use pyppmd.Base.{ℕ, ◌+◌, ◌-◌, ◌==◌, if◌then◌else◌, set}
use pyppmd.Base.Memory.{load32, store32}
use pyppmd.Ppmd7.State.{Ppmd7, u2b, u2i, i2u, free_list_at}

unfoldable pub insert_node : Ppmd7 → (node indx : ℕ) → Ppmd7
insert_node p node indx = record p {
  mem = store32 p.mem node (free_list_at p indx);
  free_list = set p.free_list indx node;
}

-- The node, and the state without it.
unfoldable pub remove_node : Ppmd7 → (indx : ℕ) → ℕ × Ppmd7
remove_node p indx =
    let node = free_list_at p indx in
    (node, record p { free_list = set p.free_list indx (load32 p.mem node) })

-- The end of SplitBlock and of GlueFreeBlocks: `nu` units at `ptr` go to one free list, or in two
-- blocks to two.
unfoldable pub insert_units : Ppmd7 → (ptr nu : ℕ) → Ppmd7
unfolding insert_node
insert_units p ptr nu =
    let i = u2i p nu in
    if i2u p i == nu
    then insert_node p ptr i
    else (let k = i2u p (i - 1) in
        insert_node (insert_node p (ptr + u2b k) (nu - k - 1)) ptr (i - 1))

unfoldable pub split_block : Ppmd7 → (ptr old_indx new_indx : ℕ) → Ppmd7
unfolding insert_units
split_block p ptr old_indx new_indx =
    insert_units p (ptr + u2b (i2u p new_indx)) (i2u p old_indx - i2u p new_indx)
