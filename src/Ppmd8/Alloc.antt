-- ===== src/Ppmd8/Alloc.antt =====
-- The free lists of src/lib/ppmd/Ppmd8.c, whose nodes carry a stamp and their size: InsertNode,
-- RemoveNode, SplitBlock.
use pyppmd.Base.{ℕ, ◌+◌, ◌-◌, ◌^◌, ◌==◌, if◌then◌else◌, get_or, set, u32}
use pyppmd.Ppmd7.State.{u2b}
use pyppmd.Ppmd8.State.{Ppmd8, u2i, i2u, free_list_at, put32, node_next, empty_node}

unfoldable pub insert_node : Ppmd8 → (node indx : ℕ) → Ppmd8
insert_node p node indx =
    let q =
      put32 (put32 (put32 p node empty_node) (node + 4) (free_list_at p indx)) (node + 8)
        (i2u p indx) in
    record q {
      free_list = set p.free_list indx node;
      stamps = set p.stamps indx (u32 (get_or p.stamps indx 0 + 1));
    }

-- The node, and the state without it.
unfoldable pub remove_node : Ppmd8 → (indx : ℕ) → ℕ × Ppmd8
remove_node p indx =
    let node = free_list_at p indx in
    (
      node,
      record p {
        free_list = set p.free_list indx (node_next p node);
        stamps = set p.stamps indx (u32 (get_or p.stamps indx 0 + 2 ^ 32 - 1));
      },
    )

-- The end of SplitBlock and of GlueFreeBlocks: `nu` units at `ptr` go to one free list, or in two
-- blocks to two.
unfoldable pub insert_units : Ppmd8 → (ptr nu : ℕ) → Ppmd8
unfolding insert_node
insert_units p ptr nu =
    let i = u2i p nu in
    if i2u p i == nu
    then insert_node p ptr i
    else (let k = i2u p (i - 1) in
        insert_node (insert_node p (ptr + u2b k) (nu - k - 1)) ptr (i - 1))

unfoldable pub split_block : Ppmd8 → (ptr old_indx new_indx : ℕ) → Ppmd8
unfolding insert_units
split_block p ptr old_indx new_indx =
    insert_units p (ptr + u2b (i2u p new_indx)) (i2u p old_indx - i2u p new_indx)
