-- ===== src/Extension/Room.antt =====
-- What becomes of the output buffer in the encoding loop, where Python gives what it is asked for.
use pyppmd.Base.{
  ap, ℕ, zero, suc, ◌+◌, ◌-◌, ◌^◌, ◌≤◌, ◌<◌, ◌≡◌, refl, ◌∙◌, true, false, Bool-cases, none, some,
  List, [], ◌∷◌, ◌++◌, ltb, ◌==◌, arith, length, get_or, inl, inr,
}
use mathlib.Core.List.{append_assoc, append-nil}
use mathlib.Core.Path.{subst}
use pyppmd.RangeCoder.Value.{All}
use pyppmd.Blocks.Buffer.{
  is_over, Output, grow, writer, ssize_max, next_size, limit_size, buffer_block_size,
}
use pyppmd.Blocks.Invariant.{IsFilled, IsNewBytes, writer-IsFilled, grown, grown-IsFilled}
use pyppmd.Extension.Encoder.{Python, write_all, renew}

-- Python has memory for each request.
pub record IsGenerous (py : Python) : Type 0 where
  pub faithful : IsNewBytes py.new_bytes
  pub bytes : (n : ℕ) → (b : List ℕ) × (py.new_bytes n ≡ some b)
  pub list_made : py.list_made ≡ true
  pub appended : (n : ℕ) → py.appended n ≡ true

-- An output buffer without a limit that holds `bytes`, and has taken at most `size` bytes.
pub record IsHolding (out : Output) (bytes : List ℕ) (size : ℕ) : Type 0 where
  pub filled : IsFilled out bytes
  pub unlimited : out.buffer.max_length ≡ none
  pub allocated : out.buffer.allocated ≤ size

writer-buffer :
    (p : Output) (b : ℕ)
    → ((writer p b).buffer.max_length ≡ p.buffer.max_length)
      × ((writer p b).buffer.allocated ≡ p.buffer.allocated)
      × ((writer p b).ob.size ≡ p.ob.size)
unfolding writer
writer-buffer p b = elim (Bool-cases (p.ob.size == p.ob.pos)) [
  | inl full ↦ rw full (refl, refl, refl)
  | inr room ↦ rw room (refl, refl, refl)
]

writer-pos : (p : Output) (b : ℕ) → p.ob.pos < p.ob.size → (writer p b).ob.pos ≡ p.ob.pos + 1
unfolding writer
writer-pos p b room =
    let test : (p.ob.size == p.ob.pos) ≡ false = ground (arith, room) in rw test refl

-- Bytes for which there is room are all written.
pub write_all-IsHolding :
    (xs : List ℕ) (p : Output) (bytes : List ℕ) (size : ℕ)
    → length xs ≤ p.ob.size - p.ob.pos
    → IsHolding p bytes size
    → IsHolding (write_all p xs) (bytes ++ xs) size
unfolding write_all
write_all-IsHolding [] p bytes size room h = rw (append-nil bytes) h
write_all-IsHolding (x ∷ xs) p bytes size room h =
    let fits : p.ob.pos < p.ob.size = omega (arith, room) in
    let (limit, allocated, width) = writer-buffer p x in
    let next : length xs ≤ (writer p x).ob.size - (writer p x).ob.pos =
      omega (arith, width, writer-pos p x fits, room) in
    subst (λ (bs : List ℕ). IsHolding (write_all (writer p x) xs) bs size)
      (append_assoc bytes (x ∷ []) xs)
      (write_all-IsHolding xs (writer p x) (bytes ++ x ∷ []) size next (record {
        filled = writer-IsFilled x h.filled fits;
        unlimited = limit ∙ h.unlimited;
        allocated = omega (arith, allocated, h.allocated);
      }))

get_or-le : (xs : List ℕ) (n m : ℕ) → All (λ x. x ≤ m) xs → get_or xs n 0 ≤ m
get_or-le [] n m small = omega arith
get_or-le (x ∷ xs) zero m (here, rest) = here
get_or-le (x ∷ xs) (suc n) m (here, rest) = get_or-le xs n m rest

-- A block without a limit has at most 256 MB.
next_size-le : (p : Output) → p.buffer.max_length ≡ none → next_size p.buffer ≤ 2 ^ 28
unfolding next_size limit_size
next_size-le p free = elim (Bool-cases (ltb (length p.buffer.list) (length buffer_block_size))) [
  | inl inside ↦
      rw (free, inside) (get_or-le buffer_block_size (length p.buffer.list) (2 ^ 28) (omega arith))
  | inr behind ↦ rw (free, behind) (omega arith)
]

-- Growing where there is memory.
grow-grown :
    (py : Python) (p : Output) (b : List ℕ)
    → p.buffer.max_length ≡ none
    → p.buffer.allocated + next_size p.buffer ≤ ssize_max
    → py.new_bytes (next_size p.buffer) ≡ some b
    → py.appended (length p.buffer.list) ≡ true
    → grow py.new_bytes (py.appended (length p.buffer.list)) p ≡ some (grown p b)
unfolding grow
grow-grown py p b free fits got appended =
    let test : ltb (ssize_max - p.buffer.allocated) (next_size p.buffer) ≡ false =
      ground (arith, fits) in
    let not_over : is_over p.buffer.max_length p.buffer.allocated ≡ false =
      ap (λ m. is_over m p.buffer.allocated) free in
    rw (not_over, test, got, appended) refl

-- Behind a symbol there is an output buffer again.
pub renew-IsHolding :
    (py : Python) (p : Output) (bytes : List ℕ) (size : ℕ)
    → IsGenerous py
    → size + 2 ^ 28 ≤ ssize_max
    → IsHolding p bytes size
    → (q : Output) × (renew py p ≡ some q) × IsHolding q bytes (size + 2 ^ 28)
unfolding renew
renew-IsHolding py p bytes size generous fits h = elim (Bool-cases (p.ob.size == p.ob.pos)) [
  | inr room ↦ (
    p,
    rw room refl,
    record { filled = h.filled; unlimited = h.unlimited; allocated = omega (arith, h.allocated) },
  )
  | inl full ↦
      let small = next_size-le p h.unlimited in
      let (b, got) = generous.bytes (next_size p.buffer) in
      let fits' : p.buffer.allocated + next_size p.buffer ≤ ssize_max =
        omega (arith, h.allocated, small, fits) in
      let end : p.ob.pos ≡ p.ob.size = ground (arith, full) in
      (
        grown p b,
        rw full
            (grow-grown py p b h.unlimited fits' got (generous.appended (length p.buffer.list))),
        record {
          filled = grown-IsFilled b h.filled end (generous.faithful _ b got) fits';
          unlimited = h.unlimited;
          allocated = omega (arith, h.allocated, small);
        },
      )
]
