-- ===== src/Ppmd7/Tables.antt =====
-- Ppmd7_Construct, Ppmd7_Free and Ppmd7_Alloc.
use pyppmd.Base.{
  ℕ, zero, suc, ◌+◌, ◌-◌, ◌/◌, ◌%◌, Bool, true, false, not, ◌||◌, Option, none, some, List, set, u8,
  u32, leb, ◌==◌, if◌then◌else◌,
}
use pyppmd.Base.Memory.{Memory}
use pyppmd.Ppmd7.State.{Ppmd7, num_indexes, unit_size}

-- `do { a[k++] = v; } while (--step)`
unfoldable pub fill : ℕ → List ℕ → ℕ → ℕ → List ℕ
fill zero a k v = a
fill (suc step) a k v = fill step (set a k v) (k + 1) v

unfoldable pub memset : List ℕ → (start value count : ℕ) → List ℕ
unfolding fill
memset a start value count = fill count a start value

unfoldable pub step_of : ℕ → ℕ
step_of i = if leb 12 i then 4 else i / 4 + 1

pub record UnitTables : Type 0 where
  pub indx2units : List ℕ
  pub units2indx : List ℕ

-- The loop over the indexes, with `n` of them left.
unfoldable pub unit_tables : ℕ → (i k : ℕ) → UnitTables → UnitTables
unfolding fill step_of
unit_tables zero i k t = t
unit_tables (suc n) i k t =
    let k' = k + step_of i in
    unit_tables n (i + 1) k' (record {
      units2indx = fill (step_of i) t.units2indx k (u8 i);
      indx2units = set t.indx2units i (u8 k');
    })

-- `p->NS2Indx[i] = (Byte)i` for the first indexes.
unfoldable pub ns_first : ℕ → ℕ → List ℕ → List ℕ
ns_first zero i a = a
ns_first (suc n) i a = ns_first n (i + 1) (set a i (u8 i))

-- The loop over the others, with `n` of them left.
unfoldable pub ns_rest : ℕ → (i m k : ℕ) → List ℕ → List ℕ
ns_rest zero i m k a = a
ns_rest (suc n) i m k a =
    let last = k - 1 == 0 in
    ns_rest n (i + 1) (if last then m + 1 else m) (if last then m + 1 - 2 else k - 1)
      (set a i (u8 m))

unfoldable pub construct : Ppmd7 → Ppmd7
unfolding memset unit_tables ns_first ns_rest
construct p =
    let t =
      unit_tables num_indexes 0 0
        (record { indx2units = p.indx2units; units2indx = p.units2indx }) in
    record p {
      allocated = false;
      indx2units = t.indx2units;
      units2indx = t.units2indx;
      ns2bsindx = memset (memset (set (set p.ns2bsindx 0 0) 1 2) 2 4 9) 11 6 (256 - 11);
      ns2indx = ns_rest 253 3 3 1 (ns_first 3 0 p.ns2indx);
      hb2flag = memset (memset p.hb2flag 0 0 0x40) 0x40 8 (0x100 - 0x40);
    }

-- Ppmd7_Free. What the allocator does with the block is not the model's.
unfoldable pub free : Ppmd7 → Ppmd7
free p = record p { size = 0; allocated = false }

-- Ppmd7_Alloc with the allocator's answer to each request: `none` is NULL.
unfoldable pub alloc : Ppmd7 → (size : ℕ) → (ℕ → Option Memory) → Bool × Ppmd7
unfolding free
alloc p size allocator =
    if not p.allocated || not (p.size == size)
    then (let q = record (free p) { align_offset = 4 - size % 4 } in
        elim (allocator (u32 (q.align_offset + size) + unit_size)) [
          | none ↦ (false, q)
          | some m ↦ (true, record q { allocated = true; size = size; mem = m })
        ])
    else (true, p)
