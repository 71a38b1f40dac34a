-- ===== src/Ppmd7/Units.antt =====
-- AllocUnitsRare, AllocUnits, ShrinkUnits and AllocContext. A result 0 is NULL; `none` means that
-- GlueFreeBlocks did not end.
use pyppmd.Base.{
  ℕ, zero, suc, ◌+◌, ◌-◌, ◌^◌, not, Option, some, ◌>>=◌, ◌==◌, ltb, leb, if◌then◌else◌, u32,
}
use pyppmd.Base.Memory.{copy_units, do_rounds}
use pyppmd.Ppmd7.State.{Ppmd7, ptr_diff, u2b, u2i, i2u, free_list_at, num_indexes, unit_size}
use pyppmd.Ppmd7.Alloc.{insert_node, remove_node, split_block}
use pyppmd.Ppmd7.Glue.{glue_free_blocks}

-- No free list has a block: the units are taken from between the text and the units.
unfoldable pub alloc_below : Ppmd7 → (indx : ℕ) → ℕ × Ppmd7
alloc_below p indx =
    let num_bytes = u2b (i2u p indx) in
    let q = record p { glue_count = u32 (p.glue_count + 2 ^ 32 - 1) } in
    if ltb num_bytes (ptr_diff q.units_start q.text)
    then (q.units_start - num_bytes, record q { units_start = q.units_start - num_bytes })
    else (0, q)

-- The search for a larger block, from `i + 1` on with `n` lists left.
unfoldable pub alloc_larger : ℕ → Ppmd7 → (i indx : ℕ) → ℕ × Ppmd7
unfolding alloc_below
alloc_larger zero p i indx = alloc_below p indx
alloc_larger (suc n) p i indx =
    let rest = alloc_larger n p (i + 1) indx in
    if free_list_at p (i + 1) == 0
    then rest
    else (let (ptr, q) = remove_node p (i + 1) in (ptr, split_block q ptr (i + 1) indx))

unfoldable pub alloc_units_rare : Ppmd7 → (indx : ℕ) → Option (ℕ × Ppmd7)
unfolding alloc_larger
alloc_units_rare p indx =
    let search = λ (q : Ppmd7). alloc_larger (num_indexes - 1 - indx) q indx indx in
    if p.glue_count == 0
    then (glue_free_blocks p >>= λ q.
        some (if free_list_at q indx == 0 then search q else remove_node q indx))
    else some (search p)

unfoldable pub alloc_units : Ppmd7 → (indx : ℕ) → Option (ℕ × Ppmd7)
unfolding alloc_units_rare
alloc_units p indx =
    let num_bytes = u2b (i2u p indx) in
    if not (free_list_at p indx == 0)
    then some (remove_node p indx)
    else if leb num_bytes (ptr_diff p.hi_unit p.lo_unit)
    then some (p.lo_unit, record p { lo_unit = p.lo_unit + num_bytes })
    else alloc_units_rare p indx

unfoldable pub shrink_units : Ppmd7 → (old_ptr old_nu new_nu : ℕ) → ℕ × Ppmd7
shrink_units p old_ptr old_nu new_nu =
    let i0 = u2i p old_nu in
    let i1 = u2i p new_nu in
    if i0 == i1
    then (old_ptr, p)
    else if not (free_list_at p i1 == 0)
    then (let (ptr, q) = remove_node p i1 in
        (
          ptr,
          insert_node (record q { mem = copy_units (do_rounds new_nu) q.mem ptr old_ptr }) old_ptr
              i0,
        ))
    else (old_ptr, split_block p old_ptr i0 i1)

-- AllocContext, as CreateSuccessors has it in line.
unfoldable pub alloc_context : Ppmd7 → Option (ℕ × Ppmd7)
unfolding alloc_units_rare
alloc_context p =
    if not (p.hi_unit == p.lo_unit)
    then some (p.hi_unit - unit_size, record p { hi_unit = p.hi_unit - unit_size })
    else if not (free_list_at p 0 == 0)
    then some (remove_node p 0)
    else alloc_units_rare p 0
