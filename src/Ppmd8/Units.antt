-- ===== src/Ppmd8/Units.antt =====
-- AllocUnitsRare, AllocUnits, ShrinkUnits, FreeUnits, SpecialFreeUnit and MoveUnitsUp. A result 0 is
-- NULL; `none` means that GlueFreeBlocks did not end.
use pyppmd.Base.{
  ℕ, zero, suc, ◌+◌, ◌-◌, ◌*◌, ◌^◌, not, ◌||◌, Option, some, ◌>>=◌, ◌==◌, ltb, leb, if◌then◌else◌,
  u32,
}
use pyppmd.Base.Memory.{copy_units, do_rounds}
use pyppmd.Ppmd7.State.{ptr_diff, u2b, num_indexes, unit_size}
use pyppmd.Ppmd8.State.{Ppmd8, u2i, i2u, free_list_at}
use pyppmd.Ppmd8.Alloc.{insert_node, remove_node, split_block}
use pyppmd.Ppmd8.Glue.{glue_free_blocks}

-- No free list has a block: the units are taken from between the text and the units.
unfoldable pub alloc_below : Ppmd8 → (indx : ℕ) → ℕ × Ppmd8
alloc_below p indx =
    let num_bytes = u2b (i2u p indx) in
    let q = record p { glue_count = u32 (p.glue_count + 2 ^ 32 - 1) } in
    if ltb num_bytes (ptr_diff q.units_start q.text)
    then (q.units_start - num_bytes, record q { units_start = q.units_start - num_bytes })
    else (0, q)

-- The search for a larger block, from `i + 1` on with `n` lists left.
unfoldable pub alloc_larger : ℕ → Ppmd8 → (i indx : ℕ) → ℕ × Ppmd8
unfolding alloc_below
alloc_larger zero p i indx = alloc_below p indx
alloc_larger (suc n) p i indx =
    let rest = alloc_larger n p (i + 1) indx in
    if free_list_at p (i + 1) == 0
    then rest
    else (let (ptr, q) = remove_node p (i + 1) in (ptr, split_block q ptr (i + 1) indx))

unfoldable pub alloc_units_rare : Ppmd8 → (indx : ℕ) → Option (ℕ × Ppmd8)
unfolding alloc_larger
alloc_units_rare p indx =
    let search = λ (q : Ppmd8). alloc_larger (num_indexes - 1 - indx) q indx indx in
    if p.glue_count == 0
    then (glue_free_blocks p >>= λ q.
        some (if free_list_at q indx == 0 then search q else remove_node q indx))
    else some (search p)

unfoldable pub alloc_units : Ppmd8 → (indx : ℕ) → Option (ℕ × Ppmd8)
unfolding alloc_units_rare
alloc_units p indx =
    let num_bytes = u2b (i2u p indx) in
    if not (free_list_at p indx == 0)
    then some (remove_node p indx)
    else if leb num_bytes (ptr_diff p.hi_unit p.lo_unit)
    then some (p.lo_unit, record p { lo_unit = p.lo_unit + num_bytes })
    else alloc_units_rare p indx

-- The copy of the units to a block taken from a free list.
unfoldable pub move_units : Ppmd8 → (old_ptr nu indx : ℕ) → ℕ × Ppmd8
move_units p old_ptr nu indx =
    let (ptr, q) = remove_node p indx in
    (ptr, record q { mem = copy_units (do_rounds nu) q.mem ptr old_ptr })

unfoldable pub shrink_units : Ppmd8 → (old_ptr old_nu new_nu : ℕ) → ℕ × Ppmd8
unfolding move_units
shrink_units p old_ptr old_nu new_nu =
    let i0 = u2i p old_nu in
    let i1 = u2i p new_nu in
    if i0 == i1
    then (old_ptr, p)
    else if not (free_list_at p i1 == 0)
    then (let (ptr, q) = move_units p old_ptr new_nu i1 in (ptr, insert_node q old_ptr i0))
    else (old_ptr, split_block p old_ptr i0 i1)

unfoldable pub free_units : Ppmd8 → (ptr nu : ℕ) → Ppmd8
free_units p ptr nu = insert_node p ptr (u2i p nu)

unfoldable pub special_free_unit : Ppmd8 → (ptr : ℕ) → Ppmd8
special_free_unit p ptr =
    if ptr == p.units_start
    then record p { units_start = p.units_start + unit_size }
    else insert_node p ptr 0

unfoldable pub move_units_up : Ppmd8 → (old_ptr nu : ℕ) → ℕ × Ppmd8
unfolding move_units
move_units_up p old_ptr nu =
    let indx = u2i p nu in
    let (ptr, q) = move_units p old_ptr nu indx in
    if ltb (p.units_start + 16 * 1024) old_ptr || ltb (free_list_at p indx) old_ptr
    then (old_ptr, p)
    else if old_ptr == q.units_start
    then (ptr, record q { units_start = q.units_start + u2b (i2u q indx) })
    else (ptr, insert_node q old_ptr indx)

-- AllocContext, as CreateSuccessors has it in line.
unfoldable pub alloc_context : Ppmd8 → Option (ℕ × Ppmd8)
unfolding alloc_units_rare
alloc_context p =
    if not (p.hi_unit == p.lo_unit)
    then some (p.hi_unit - unit_size, record p { hi_unit = p.hi_unit - unit_size })
    else if not (free_list_at p 0 == 0)
    then some (remove_node p 0)
    else alloc_units_rare p 0
