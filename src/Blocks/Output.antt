-- ===== src/Blocks/Output.antt =====
-- What becomes of the bytes that are written between the first block and OutputBuffer_Finish.
use pyppmd.Base.{
  ℕ, ◌-◌, ◌*◌, ◌≤◌, ◌<◌, ◌≡◌, refl, ◌∙◌, sym, ap, Bool, true, ◌&&◌, ◌||◌, Option, none, some, List,
  [], ◌∷◌, ◌++◌, ◌==◌, arith, length, get_or, take, join, take-length, length-append, Bool-cases,
  Option-cases, inl, inr,
}
use mathlib.Core.List.{append-nil}
use mathlib.Core.Option.{some-injective}
use mathlib.Core.Path.{subst, ap₂}
use pyppmd.Blocks.Buffer.{
  Output, NewBytes, first_block, init_and_grow, grow, copy_blocks, finish, writer, ssize_max,
}
use pyppmd.Blocks.Copy.{copy_blocks-join}
use pyppmd.Blocks.Invariant.{
  IsFilled, IsWithin, IsNewBytes, length-IsFilled, writer-IsFilled, grown-IsFilled, grow-IsGrown,
}

-- The condition of the fast path.
abbrev is_single : (n pos size : ℕ) → Bool
is_single n pos size = (n == 1 && pos == size) || (n == 2 && pos == 0)

is_single-bytes :
    (full : List (List ℕ)) (last : List ℕ) (pos : ℕ)
    → is_single (length (full ++ last ∷ [])) pos (length last) ≡ true
    → get_or (full ++ last ∷ []) 0 [] ≡ join full ++ take pos last
unfolding take join
is_single-bytes [] last pos single =
    let end : pos ≡ length last = ground (arith, single) in
    sym (ap (λ n. take n last) end ∙ take-length last)
is_single-bytes (x ∷ []) last pos single =
    let start : pos ≡ 0 = ground (arith, single) in
    rw start (sym (append-nil (x ++ []) ∙ append-nil x))
is_single-bytes (x ∷ y ∷ full) last pos single =
    absurd (ground (arith, single, length-append full (last ∷ [])))

-- Finishing gives what was written, or fails for want of a bytes object of that size.
abbrev pub IsFinished : NewBytes → (bytes : List ℕ) → Option (List ℕ) → Type 0
IsFinished new_bytes bytes none = new_bytes (length bytes) ≡ none
IsFinished new_bytes bytes (some r) = r ≡ bytes

-- OutputBuffer_Finish returns the bytes that were written, in order, and fails only where no bytes
-- object of their number is to be had.
pub finish-IsFinished :
    (new_bytes : NewBytes) {p : Output} {bytes : List ℕ}
    → IsNewBytes new_bytes
    → IsFilled p bytes
    → IsFinished new_bytes bytes (finish new_bytes p)
unfolding finish
finish-IsFinished new_bytes {p} {bytes} faithful h =
    let number : p.buffer.allocated - (p.ob.size - p.ob.pos) ≡ length bytes =
      omega (arith, length-IsFilled h, h.pos_le) in
    let single_bytes : is_single (length p.buffer.list) p.ob.pos p.ob.size ≡ true
        → get_or p.buffer.list 0 [] ≡ bytes =
      λ single.
        ap (λ xs. get_or xs 0 []) h.list
        ∙ is_single-bytes h.full h.last p.ob.pos
            (sym (ap₂ (λ n s. is_single n p.ob.pos s) (ap length h.list) h.size) ∙ single)
        ∙ sym h.written in
    let copied : (r : List ℕ)
        → new_bytes (length bytes) ≡ some r
        → copy_blocks r 0 p.buffer.list p.ob.pos ≡ bytes =
      λ r got.
        ap (λ xs. copy_blocks r 0 xs p.ob.pos) h.list
        ∙ copy_blocks-join h.full h.last [] r p.ob.pos (omega (arith, h.pos_le, h.size))
            (omega (arith, faithful (length bytes) r got, length-IsFilled h, h.allocated, h.pos_le))
        ∙ sym h.written in
    elim (Bool-cases (is_single (length p.buffer.list) p.ob.pos p.ob.size)) [
      | inl single ↦ rw single (single_bytes single)
      | inr several ↦ elim (Option-cases (new_bytes (length bytes))) [
        | inl failed ↦ rw (several, number, failed) failed
        | inr (r, got) ↦ rw (several, number, got) (copied r got)
      ]
    ]

-- What a caller does with the buffer between the first block and the end: writing where there is
-- room, and growing where there is none. `bytes` is what it writes.
pub data Steps : Output → Output → (bytes : List ℕ) → Type 0 where
  start : {p : Output} → Steps p p []
  write :
      {p q : Output} {bytes : List ℕ} (b : ℕ)
      → Steps p q bytes
      → q.ob.pos < q.ob.size
      → Steps p (writer q b) (bytes ++ b ∷ [])
  grow_by :
      {p q r : Output} {bytes : List ℕ} (new_bytes : NewBytes) (appended : Bool)
      → Steps p q bytes
      → q.ob.pos ≡ q.ob.size
      → IsNewBytes new_bytes
      → grow new_bytes appended q ≡ some r
      → Steps p r bytes

first_block-IsFilled :
    (new_bytes : NewBytes) (list_made : Bool) (max_length : Option ℕ) (size : ℕ) (p : Output)
    → IsNewBytes new_bytes
    → first_block new_bytes list_made max_length size ≡ some p
    → IsWithin max_length size
    → size ≤ ssize_max
    → IsFilled p [] × (p.buffer.max_length ≡ max_length)
unfolding first_block take join
first_block-IsFilled new_bytes list_made max_length size p faithful h within small =
    elim (Option-cases (new_bytes size)) [
      | inl failed ↦ cc (rw failed at h)
      | inr (b, got) ↦ elim (Bool-cases list_made) [
        | inl made ↦
            subst (λ (q : Output). IsFilled q [] × (q.buffer.max_length ≡ max_length))
              (some-injective _ _ (rw (got, made) at h))
              (
                record {
                  full = [];
                  last = b;
                  list = refl;
                  dst = refl;
                  size = sym (faithful size b got);
                  pos_le = omega arith;
                  written = refl;
                  allocated = omega arith;
                  within = within;
                  small = small;
                },
                refl,
              )
        | inr refused ↦ cc (rw (got, refused) at h)
      ]
    ]

pub init_and_grow-IsFilled :
    (new_bytes : NewBytes) (list_made : Bool) (max_length : Option ℕ) (p : Output)
    → IsNewBytes new_bytes
    → init_and_grow new_bytes list_made max_length ≡ some p
    → IsFilled p [] × (p.buffer.max_length ≡ max_length)
unfolding init_and_grow
init_and_grow-IsFilled new_bytes list_made none p faithful h =
    first_block-IsFilled new_bytes list_made none (32 * 1024) p faithful h (omega arith)
      (omega arith)
init_and_grow-IsFilled new_bytes list_made (some m) p faithful h =
    first_block-IsFilled new_bytes list_made (some m) _ p faithful h (ground arith) (ground arith)

writer-max_length : (q : Output) (b : ℕ) → (writer q b).buffer.max_length ≡ q.buffer.max_length
unfolding writer
writer-max_length q b = elim (Bool-cases (q.ob.size == q.ob.pos)) [
  | inl full ↦ rw full refl
  | inr room ↦ rw room refl
]

pub Steps-IsFilled :
    {p q : Output} {bytes : List ℕ}
    → IsFilled p []
    → Steps p q bytes
    → IsFilled q bytes × (q.buffer.max_length ≡ p.buffer.max_length)
Steps-IsFilled h start = (h, refl)
Steps-IsFilled h (write {q = q} b steps room) =
    let (filled, same) = Steps-IsFilled h steps in
    (writer-IsFilled b filled room, writer-max_length q b ∙ same)
Steps-IsFilled h (grow_by {q = q} new_bytes appended steps full faithful done) =
    let (filled, same) = Steps-IsFilled h steps in
    let (fits, made, b, got, next) =
      rw done at (grow-IsGrown new_bytes appended q filled.small filled.within) in
    rw next (grown-IsFilled b filled full (faithful _ b got) fits, same)

IsWithin-le :
    (max_length : Option ℕ) (m n : ℕ) → m ≤ n → IsWithin max_length n → IsWithin max_length m
IsWithin-le none m n le within = within
IsWithin-le (some k) m n le within = omega arith

-- From the first block that OutputBuffer_InitAndGrow makes, through any sequence of bytes that are
-- written where there is room and of growths where there is none, OutputBuffer_Finish returns the
-- bytes that were written, in order, or fails for want of a bytes object of their number; and they
-- are no more than the limit allows.
pub Steps-IsFinished :
    (first new_bytes : NewBytes) (list_made : Bool) (max_length : Option ℕ) {p q : Output}
    {bytes : List ℕ}
    → IsNewBytes first
    → IsNewBytes new_bytes
    → init_and_grow first list_made max_length ≡ some p
    → Steps p q bytes
    → IsFinished new_bytes bytes (finish new_bytes q) × IsWithin max_length (length bytes)
Steps-IsFinished first new_bytes list_made max_length {p} {q} {bytes} faithful faithful' started
      steps =
    let (begun, limit) = init_and_grow-IsFilled first list_made max_length p faithful started in
    let (filled, same) = Steps-IsFilled begun steps in
    (
      finish-IsFinished new_bytes faithful' filled,
      IsWithin-le max_length (length bytes) q.buffer.allocated
          (omega (arith, length-IsFilled filled)) (rw (same ∙ limit) at filled.within),
    )
