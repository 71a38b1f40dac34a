-- ===== src/Ppmd7/FreeLists.antt =====
-- The free lists as stacks: InsertNode and RemoveNode.
use pyppmd.Base.{ℕ, zero, suc, ◌^◌, ◌<◌, ◌≡◌, refl, ap, arith, List, [], ◌∷◌, length, get_or, set}
use pyppmd.Base.Memory.{store32}
use pyppmd.Base.Memory.Stored.{load32-store32}
use pyppmd.Ppmd7.State.{Ppmd7, free_list_at}
use pyppmd.Ppmd7.Alloc.{insert_node, remove_node}

pub get_or-set : (l : List ℕ) (i v : ℕ) → i < length l → get_or (set l i v) i 0 ≡ v
get_or-set [] i v small = absurd (omega arith)
get_or-set (x ∷ l) zero v small = refl
get_or-set (x ∷ l) (suc i) v small = get_or-set l i v (omega arith)

pub set-set : (l : List ℕ) (i v w : ℕ) → set (set l i v) i w ≡ set l i w
set-set [] i v w = refl
set-set (x ∷ l) zero v w = refl
set-set (x ∷ l) (suc i) v w = ap (λ (t : List ℕ). x ∷ t) (set-set l i v w)

pub set-get_or : (l : List ℕ) (i : ℕ) → set l i (get_or l i 0) ≡ l
set-get_or [] i = refl
set-get_or (x ∷ l) zero = refl
set-get_or (x ∷ l) (suc i) = ap (λ (t : List ℕ). x ∷ t) (set-get_or l i)

-- A node that is inserted into one of the free lists is the next that is removed from it; the lists
-- are then as before, and only the node's first word has changed, which holds the former head.
pub remove_node-insert_node :
    (p : Ppmd7) (node indx : ℕ)
    → indx < length p.free_list
    → free_list_at p indx < 2 ^ 32
    → remove_node (insert_node p node indx) indx
      ≡ (node, record p { mem = store32 p.mem node (free_list_at p indx) })
unfolding remove_node insert_node
remove_node-insert_node p node indx inside small =
    rw
      (
        get_or-set p.free_list indx node inside,
        load32-store32 p.mem node (free_list_at p indx) small,
        set-set p.free_list indx node (free_list_at p indx),
        set-get_or p.free_list indx,
      )
      refl
