-- ===== src/Ppmd8/Tables.antt =====
-- Ppmd8_Construct, Ppmd8_Free and Ppmd8_Alloc.
use pyppmd.Base.{
  ℕ, zero, suc, ◌+◌, ◌-◌, ◌%◌, Bool, true, false, not, ◌||◌, Option, none, some, List, set, u8, u32,
  ◌==◌, if◌then◌else◌,
}
use pyppmd.Base.Memory.{Memory}
use pyppmd.Ppmd7.State.{num_indexes}
use pyppmd.Ppmd7.Tables.{memset, unit_tables, ns_first}
use pyppmd.Ppmd8.State.{Ppmd8}

-- The loop over the last entries of NS2Indx, with `n` of them left.
unfoldable pub ns_last : ℕ → (i m k : ℕ) → List ℕ → List ℕ
ns_last zero i m k a = a
ns_last (suc n) i m k a =
    let wrapped = k - 1 == 0 in
    ns_last n (i + 1) (if wrapped then m + 1 else m) (if wrapped then m + 1 - 4 else k - 1)
      (set a i (u8 m))

unfoldable pub construct : Ppmd8 → Ppmd8
unfolding ns_last
construct p =
    let t =
      unit_tables num_indexes 0 0
        (record { indx2units = p.indx2units; units2indx = p.units2indx }) in
    record p {
      allocated = false;
      indx2units = t.indx2units;
      units2indx = t.units2indx;
      ns2bsindx = memset (memset (set (set p.ns2bsindx 0 0) 1 2) 2 4 9) 11 6 (256 - 11);
      ns2indx = ns_last 255 5 5 1 (ns_first 5 0 p.ns2indx);
    }

-- What the allocator does with the block is not the model's.
unfoldable pub free : Ppmd8 → Ppmd8
free p = record p { size = 0; allocated = false }

-- Ppmd8_Alloc with the allocator's answer to each request: `none` is NULL.
unfoldable pub alloc : Ppmd8 → (size : ℕ) → (ℕ → Option Memory) → Bool × Ppmd8
unfolding free
alloc p size allocator =
    if not p.allocated || not (p.size == size)
    then (let q = record (free p) { align_offset = 4 - size % 4 } in
        elim (allocator (u32 (q.align_offset + size))) [
          | none ↦ (false, q)
          | some m ↦ (true, record q { allocated = true; size = size; mem = m })
        ])
    else (true, p)
