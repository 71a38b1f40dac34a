-- ===== src/Ppmd8/Accounts.antt =====
-- GetUsedMemory counts what the free lists hold by their stamps.
use pyppmd.Base.{
  ℕ, zero, suc, ◌+◌, ◌*◌, ◌%◌, ◌^◌, ◌≤◌, ◌<◌, ◌≡◌, ◌≢◌, refl, ◌∙◌, ap, arith, List, [], ◌∷◌, length,
  get_or, set, u32, Bool-cases, inl, inr, ◌==◌, ==_iff,
}
use pyppmd.Ppmd7.State.{num_indexes, u2b, sub32}
use pyppmd.Ppmd7.FreeLists.{get_or-set}
use pyppmd.Ppmd8.State.{Ppmd8, i2u}
use pyppmd.Ppmd8.Alloc.{insert_node}
use pyppmd.Ppmd8.TextArea.{free_total, get_used_memory}

get_or-set_other : (l : List ℕ) (i j v : ℕ) → i ≢ j → get_or (set l i v) j 0 ≡ get_or l j 0
get_or-set_other [] i j v other = refl
get_or-set_other (x ∷ l) zero zero v other = absurd (other refl)
get_or-set_other (x ∷ l) zero (suc j) v other = refl
get_or-set_other (x ∷ l) (suc i) zero v other = refl
get_or-set_other (x ∷ l) (suc i) (suc j) v other =
    get_or-set_other l i j v (λ same. other (ap suc same))

one_more :
    (v w s k : ℕ)
    → w % 2 ^ 32 ≡ v % 2 ^ 32
    → u32 (w + (s + 1) * k) % 2 ^ 32 ≡ (u32 (v + s * k) + k) % 2 ^ 32
one_more v w s k same =
    let parts : (s + 1) * k ≡ s * k + k = omega arith in rw parts (omega (arith, same))

used_less :
    (a t u k : ℕ)
    → u % 2 ^ 32 ≡ (t + k) % 2 ^ 32
    → sub32 a (u2b u) ≡ sub32 (sub32 a (u2b t)) (u2b k)
used_less a t u k ahead = omega (arith, ahead)

module _ (p : Ppmd8) (node indx : ℕ) where
  abbrev q : Ppmd8
  q = insert_node p node indx

  -- Behind the list of the node, the units stay one block ahead.
  free_total-behind :
      (left i v w : ℕ)
      → indx < i
      → w % 2 ^ 32 ≡ (v + i2u p indx) % 2 ^ 32
      → free_total left q i w % 2 ^ 32 ≡ (free_total left p i v + i2u p indx) % 2 ^ 32
  unfolding free_total insert_node
  free_total-behind zero i v w behind ahead = ahead
  free_total-behind (suc left) i v w behind ahead =
      let same =
        get_or-set_other p.stamps indx i (u32 (get_or p.stamps indx 0 + 1))
          (λ e. absurd (omega (arith, e))) in
      rw same (free_total-behind left (i + 1) _ _ (omega arith) (omega (arith, ahead)))

  free_total-insert_node :
      (left i v w : ℕ)
      → indx < length p.stamps
      → get_or p.stamps indx 0 + 1 < 2 ^ 32
      → i ≤ indx
      → indx < i + left
      → w % 2 ^ 32 ≡ v % 2 ^ 32
      → free_total left q i w % 2 ^ 32 ≡ (free_total left p i v + i2u p indx) % 2 ^ 32
  unfolding free_total insert_node
  free_total-insert_node zero i v w inside small le lt same = absurd (omega arith)
  free_total-insert_node (suc left) i v w inside small le lt same = elim (Bool-cases (i == indx)) [
    | inl here ↦
        let e : i ≡ indx = (==_iff i indx).0 here in
        let found = get_or-set p.stamps indx (u32 (get_or p.stamps indx 0 + 1)) inside in
        let plain : u32 (get_or p.stamps indx 0 + 1) ≡ get_or p.stamps indx 0 + 1 = omega arith in
        rw (e, found ∙ plain)
          (free_total-behind left (indx + 1) _ _ (omega arith)
            (one_more v w (get_or p.stamps indx 0) (i2u p indx) same))
    | inr other ↦
        let apart =
          get_or-set_other p.stamps indx i (u32 (get_or p.stamps indx 0 + 1))
            (λ e. ground (arith, other, e)) in
        rw apart (
          free_total-insert_node left (i + 1) _ _ inside small (ground (arith, other)) (omega arith)
            (omega (arith, same)))
  ]

-- A block that InsertNode puts into a free list whose stamp is below 2 ^ 32 - 1 lowers what
-- GetUsedMemory returns by the bytes that the list's blocks have, in 32 bits.
pub get_used_memory-insert_node :
    (p : Ppmd8) (node indx : ℕ)
    → indx < num_indexes
    → indx < length p.stamps
    → get_or p.stamps indx 0 + 1 < 2 ^ 32
    → get_used_memory (insert_node p node indx) ≡ sub32 (get_used_memory p) (u2b (i2u p indx))
unfolding get_used_memory insert_node
get_used_memory-insert_node p node indx listed inside small =
    let units =
      free_total-insert_node p node indx num_indexes 0 0 0 inside small (omega arith) (omega arith)
        refl in
    used_less _ _ _ (i2u p indx) units
