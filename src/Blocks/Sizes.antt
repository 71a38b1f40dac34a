-- ===== src/Blocks/Sizes.antt =====
-- The sizes of the output buffer against the table in the comment of blockoutput.h, which lists the
-- whole allocated size for each number of blocks.
use pyppmd.Base.{
  ℕ, zero, suc, ◌+◌, ◌-◌, ◌*◌, ◌<◌, ◌≡◌, refl, ◌∙◌, sym, ap, Bool, true, false, Option, none, some,
  List, [], ◌∷◌, ◌++◌, ltb, ◌==◌, if◌then◌else◌, arith, length, get_or, set, length-append,
  length-set, Bool-cases, Option-cases, inl, inr,
}
use mathlib.Core.Option.{some-injective}
use mathlib.Core.Path.{subst}
use pyppmd.Blocks.Buffer.{
  Output, NewBytes, buffer_block_size, first_block, init_and_grow, limit_size, next_size, writer,
}
use pyppmd.Blocks.Invariant.{IsNewBytes, IsFilled, grown, grow-IsGrown}
use pyppmd.Blocks.Output.{Steps, start, write, grow_by, Steps-IsFilled, init_and_grow-IsFilled}

abbrev kb : ℕ
kb = 1024

-- The first 17 rows of the table, behind 0 for no block.
abbrev rows : List ℕ
rows =
    0
    ∷ 32 * kb
    ∷ 96 * kb
    ∷ 352 * kb
    ∷ 1376 * kb
    ∷ 5472 * kb
    ∷ 13664 * kb
    ∷ 30048 * kb
    ∷ 46432 * kb
    ∷ 79200 * kb
    ∷ 111968 * kb
    ∷ 144736 * kb
    ∷ 177504 * kb
    ∷ 243040 * kb
    ∷ 308576 * kb
    ∷ 439648 * kb
    ∷ 570720 * kb
    ∷ 832864 * kb
    ∷ []

-- The table, which goes on in steps of 256 MB.
abbrev pub whole_size : (blocks : ℕ) → ℕ
whole_size n = if ltb n 18 then get_or rows n 0 else (832864 + 262144 * (n - 17)) * kb

-- No more than a limit.
abbrev pub limited : (max_length : Option ℕ) → (n : ℕ) → ℕ
limited none n = n
limited (some m) n = if ltb m n then m else n

abbrev block_size : ℕ → ℕ
block_size n =
    if ltb n (length buffer_block_size) then get_or buffer_block_size n 0 else 256 * (1024 * 1024)

-- Each row is the one before and the size of a block.
sums : (n : ℕ) → List ℕ → List ℕ
sums n [] = n ∷ []
sums n (x ∷ xs) = n ∷ sums (n + x) xs

sums-first : (n : ℕ) (xs : List ℕ) → get_or (sums n xs) 0 0 ≡ n
unfolding sums
sums-first n [] = refl
sums-first n (x ∷ xs) = refl

sums-next :
    (n : ℕ) (xs : List ℕ) (i : ℕ)
    → i < length xs
    → get_or (sums n xs) (suc i) 0 ≡ get_or (sums n xs) i 0 + get_or xs i 0
unfolding sums
sums-next n [] i inside = absurd (omega (arith, inside))
sums-next n (x ∷ xs) zero inside = sums-first (n + x) xs
sums-next n (x ∷ xs) (suc i) inside = sums-next (n + x) xs i (omega (arith, inside))

sums-rows : sums 0 buffer_block_size ≡ rows
unfolding sums
sums-rows = refl

rows-next :
    (n : ℕ) → n < 17 → get_or rows (suc n) 0 ≡ get_or rows n 0 + get_or buffer_block_size n 0
rows-next n small =
    ap (λ xs. get_or xs (suc n) 0) (sym sums-rows)
    ∙ sums-next 0 buffer_block_size n small
    ∙ ap (λ xs. get_or xs n 0 + get_or buffer_block_size n 0) sums-rows

whole_size-suc : (n : ℕ) → whole_size (suc n) ≡ whole_size n + block_size n
whole_size-suc n = elim (Bool-cases (ltb n 17)) [
  | inl inside ↦
      let here : ltb n 18 ≡ true = ground (arith, inside) in
      let next : ltb (suc n) 18 ≡ true = ground (arith, inside) in
      rw (inside, here, next) (rows-next n (ground (arith, inside)))
  | inr behind ↦
      let next : ltb (suc n) 18 ≡ false = ground (arith, behind) in
      elim (Bool-cases (ltb n 18)) [
        | inl last ↦ let same : n ≡ 17 = ground (arith, behind, last) in rw same refl
        | inr after ↦ rw (behind, next, after) (ground (arith, after))
      ]
]

limit_size-limited :
    (max_length : Option ℕ) (n size : ℕ)
    → limited max_length n + limit_size max_length (limited max_length n) size
      ≡ limited max_length (n + size)
unfolding limit_size
limit_size-limited none n size = refl
limit_size-limited (some m) n size = ground arith

-- The allocated size is the table's, or the limit.
abbrev IsSized : Output → Type 0
IsSized p = p.buffer.allocated ≡ limited p.buffer.max_length (whole_size (length p.buffer.list))

grown-IsSized : (p : Output) (b : List ℕ) → IsSized p → IsSized (grown p b)
unfolding next_size
grown-IsSized p b h =
    let n = length p.buffer.list in
    let more : length (p.buffer.list ++ b ∷ []) ≡ suc n =
      omega (arith, length-append p.buffer.list (b ∷ [])) in
    ap (λ a. a + limit_size p.buffer.max_length a (block_size n)) h
    ∙ limit_size-limited p.buffer.max_length (whole_size n) (block_size n)
    ∙ ap (limited p.buffer.max_length) (sym (whole_size-suc n))
    ∙ ap (λ m. limited p.buffer.max_length (whole_size m)) (sym more)

writer-IsSized : (p : Output) (b : ℕ) → IsSized p → IsSized (writer p b)
unfolding writer
writer-IsSized p b h = elim (Bool-cases (p.ob.size == p.ob.pos)) [
  | inl full ↦ rw full h
  | inr room ↦ rw room (
      h
      ∙ ap (λ m. limited p.buffer.max_length (whole_size m))
          (sym (
            length-set p.buffer.list p.ob.dst (set (get_or p.buffer.list p.ob.dst []) p.ob.pos b))))
]

Steps-IsSized :
    {p q : Output} {bytes : List ℕ} → IsFilled p [] → IsSized p → Steps p q bytes → IsSized q
Steps-IsSized filled h start = h
Steps-IsSized filled h (write {q = q} b steps room) =
    writer-IsSized q b (Steps-IsSized filled h steps)
Steps-IsSized filled h (grow_by {q = q} new_bytes appended steps full faithful done) =
    let (inner, same) = Steps-IsFilled filled steps in
    let (fits, made, b, got, next) =
      rw done at (grow-IsGrown new_bytes appended q inner.small inner.within) in
    subst IsSized (sym next) (grown-IsSized q b (Steps-IsSized filled h steps))

first_block-IsSized :
    (new_bytes : NewBytes) (list_made : Bool) (max_length : Option ℕ) (size : ℕ) (p : Output)
    → size ≡ limited max_length (32 * kb)
    → first_block new_bytes list_made max_length size ≡ some p
    → IsSized p
unfolding first_block
first_block-IsSized new_bytes list_made max_length size p same done =
    elim (Option-cases (new_bytes size)) [
      | inl failed ↦ cc (rw failed at done)
      | inr (b, got) ↦ elim (Bool-cases list_made) [
        | inl made ↦ subst IsSized (some-injective _ _ (rw (got, made) at done)) same
        | inr refused ↦ cc (rw (got, refused) at done)
      ]
    ]

init_and_grow-IsSized :
    (new_bytes : NewBytes) (list_made : Bool) (max_length : Option ℕ) (p : Output)
    → init_and_grow new_bytes list_made max_length ≡ some p
    → IsSized p
unfolding init_and_grow
init_and_grow-IsSized new_bytes list_made none p done =
    first_block-IsSized new_bytes list_made none _ p refl done
init_and_grow-IsSized new_bytes list_made (some m) p done =
    first_block-IsSized new_bytes list_made (some m) _ p refl done

-- From the first block that OutputBuffer_InitAndGrow makes, through any sequence of bytes that are
-- written where there is room and of growths where there is none, what is allocated is what the table
-- in the comment of blockoutput.h says for the number of blocks, or the limit where that is less.
pub Steps-allocated :
    (first : NewBytes) (list_made : Bool) (max_length : Option ℕ) {p q : Output} {bytes : List ℕ}
    → IsNewBytes first
    → init_and_grow first list_made max_length ≡ some p
    → Steps p q bytes
    → q.buffer.allocated ≡ limited max_length (whole_size (length q.buffer.list))
Steps-allocated first list_made max_length {p} {q} faithful made steps =
    let (filled, limit) = init_and_grow-IsFilled first list_made max_length p faithful made in
    let (inner, same) = Steps-IsFilled filled steps in
    Steps-IsSized filled (init_and_grow-IsSized first list_made max_length p made) steps
    ∙ ap (λ m. limited m (whole_size (length q.buffer.list))) (same ∙ limit)
