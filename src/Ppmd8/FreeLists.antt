-- ===== src/Ppmd8/FreeLists.antt =====
-- The free lists as stacks: InsertNode and RemoveNode.
use pyppmd.Base.{ℕ, ◌+◌, ◌-◌, ◌^◌, ◌<◌, ◌≡◌, ◌∙◌, refl, arith, length, get_or, u32}
use pyppmd.Base.Memory.{Memory, load32, store32}
use pyppmd.Base.Memory.Stored.{load32-store32, load32-store32_behind}
use pyppmd.Ppmd7.FreeLists.{get_or-set, set-set, set-get_or}
use pyppmd.Ppmd8.State.{Ppmd8, free_list_at, i2u, empty_node}
use pyppmd.Ppmd8.Alloc.{insert_node, remove_node}

-- The memory with a node: its stamp, its link and its size.
abbrev pub noded : Ppmd8 → (node indx : ℕ) → Memory
noded p node indx =
    store32 (store32 (store32 p.mem node empty_node) (node + 4) (free_list_at p indx)) (node + 8)
      (i2u p indx)

-- A node that is inserted into one of the free lists is the next that is removed from it; the lists
-- and their stamps are then as before, and the memory has the stamp of a free node, the former head
-- and the size of the list's blocks at the node's place.
pub remove_node-insert_node_stamped :
    (p : Ppmd8) (node indx : ℕ)
    → indx < length p.free_list
    → indx < length p.stamps
    → get_or p.stamps indx 0 < 2 ^ 32
    → free_list_at p indx < 2 ^ 32
    → remove_node (insert_node p node indx) indx ≡ (node, record p { mem = noded p node indx })
unfolding remove_node insert_node
remove_node-insert_node_stamped p node indx inside stamped stamp small =
    let back : u32 (u32 (get_or p.stamps indx 0 + 1) + 2 ^ 32 - 1) ≡ get_or p.stamps indx 0 =
      omega (arith, stamp) in
    let link : load32 (noded p node indx) (node + 4) ≡ free_list_at p indx =
      load32-store32_behind _ (node + 4) (node + 8) (i2u p indx) (omega arith)
      ∙ load32-store32 (store32 p.mem node empty_node) (node + 4) (free_list_at p indx) small in
    rw
      (
        get_or-set p.free_list indx node inside,
        get_or-set p.stamps indx (u32 (get_or p.stamps indx 0 + 1)) stamped,
        back,
        link,
        set-set p.free_list indx node (free_list_at p indx),
        set-get_or p.free_list indx,
        set-set p.stamps indx (u32 (get_or p.stamps indx 0 + 1)) (get_or p.stamps indx 0),
        set-get_or p.stamps indx,
      )
      refl
