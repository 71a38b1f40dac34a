-- ===== src/Blocks/Invariant.antt =====
-- The buffer's blocks are full but for the last one, which is being written.
use pyppmd.Base.{
  ℕ, suc, ◌+◌, ◌-◌, ◌≤◌, ◌<◌, ◌≡◌, ◌⊎◌, refl, ◌∙◌, sym, ap, Bool, true, false, Option, none, some,
  List, [], ◌∷◌, ◌++◌, ◌==◌, ltb, arith, length, set, get_or, length-append, take, join,
  take-length, take-set, length-set, length-take, get_or-last, set-last, join-last, Bool-cases,
  Option-cases, inl, inr,
}
use mathlib.Core.List.{append_assoc, append-nil}
use mathlib.Core.Path.{ap₂}
use pyppmd.Blocks.Buffer.{Output, NewBytes, ssize_max, is_over, limit_size, next_size, grow, writer}

-- Within the limit, if there is one.
abbrev pub IsWithin : (max_length : Option ℕ) → (n : ℕ) → Type 0
IsWithin none n = Unit
IsWithin (some m) n = n ≤ m

-- `bytes` is what has been written.
pub record IsFilled (p : Output) (bytes : List ℕ) : Type 0 where
  pub full : List (List ℕ)
  pub last : List ℕ
  pub list : p.buffer.list ≡ full ++ last ∷ []
  pub dst : p.ob.dst ≡ length full
  pub size : p.ob.size ≡ length last
  pub pos_le : p.ob.pos ≤ p.ob.size
  pub written : bytes ≡ join full ++ take p.ob.pos last
  pub allocated : p.buffer.allocated ≡ length (join full) + p.ob.size
  pub within : IsWithin p.buffer.max_length p.buffer.allocated
  pub small : p.buffer.allocated ≤ ssize_max

-- PyBytes_FromStringAndSize returns as many bytes as it is asked for, or NULL.
abbrev pub IsNewBytes : NewBytes → Type 0
IsNewBytes new_bytes = (n : ℕ) (b : List ℕ) → new_bytes n ≡ some b → length b ≡ n

pub length-IsFilled :
    {p : Output} {bytes : List ℕ} (h : IsFilled p bytes)
    → length bytes + (p.ob.size - p.ob.pos) ≡ p.buffer.allocated
length-IsFilled {p} h =
    let joined = length-append (join h.full) (take p.ob.pos h.last) in
    let part = length-take p.ob.pos h.last (omega (arith, h.pos_le, h.size)) in
    omega (arith, ap length h.written, joined, part, h.allocated, h.pos_le)

-- A byte that there is room for is written behind the others.
pub writer-IsFilled :
    {p : Output} {bytes : List ℕ} (b : ℕ)
    → IsFilled p bytes
    → p.ob.pos < p.ob.size
    → IsFilled (writer p b) (bytes ++ b ∷ [])
unfolding writer
writer-IsFilled {p} {bytes} b h room =
    let test : (p.ob.size == p.ob.pos) ≡ false = ground (arith, room) in
    let block : get_or p.buffer.list p.ob.dst [] ≡ h.last =
      ap₂ (λ xs i. get_or xs i []) h.list h.dst ∙ get_or-last h.full h.last [] in
    rw test (record {
      full = h.full;
      last = set h.last p.ob.pos b;
      list =
          ap₂ (λ xs i. set xs i (set (get_or p.buffer.list p.ob.dst []) p.ob.pos b)) h.list h.dst
          ∙ ap (λ c. set (h.full ++ h.last ∷ []) (length h.full) (set c p.ob.pos b)) block
          ∙ set-last h.full h.last (set h.last p.ob.pos b);
      dst = h.dst;
      size = h.size ∙ sym (length-set h.last p.ob.pos b);
      pos_le = omega (arith, room);
      written =
          let more : p.ob.pos + 1 ≡ suc p.ob.pos = omega arith in
          rw more (
            ap (λ xs. xs ++ b ∷ []) h.written
            ∙ append_assoc (join h.full) (take p.ob.pos h.last) (b ∷ [])
            ∙ ap (λ xs. join h.full ++ xs)
                (sym (take-set p.ob.pos h.last b (omega (arith, room, h.size)))));
      allocated = h.allocated;
      within = h.within;
      small = h.small;
    })

-- What Writer does with a byte that there is no room for: nothing.
pub writer-full : (p : Output) (b : ℕ) → p.ob.pos ≡ p.ob.size → writer p b ≡ p
unfolding writer
writer-full p b full =
    let test : (p.ob.size == p.ob.pos) ≡ true = ground (arith, full) in rw test refl

limit_size-IsWithin :
    (max_length : Option ℕ) (allocated size : ℕ)
    → IsWithin max_length allocated
    → IsWithin max_length (allocated + limit_size max_length allocated size)
unfolding limit_size
limit_size-IsWithin none allocated size within = within
limit_size-IsWithin (some m) allocated size within = ground (arith, within)

-- The buffer with a block more.
abbrev pub grown : Output → List ℕ → Output
grown p b = record {
  buffer = record {
    list = p.buffer.list ++ b ∷ [];
    allocated = p.buffer.allocated + next_size p.buffer;
    max_length = p.buffer.max_length;
  };
  ob = record { dst = length p.buffer.list; size = next_size p.buffer; pos = 0 };
}

-- Growing fails because of the size, or because Python fails; else it adds one block.
abbrev pub IsGrown : NewBytes → (appended : Bool) → Output → Option Output → Type 0
IsGrown new_bytes appended p none =
    (ssize_max < p.buffer.allocated + next_size p.buffer)
    ⊎ (new_bytes (next_size p.buffer) ≡ none)
    ⊎ (appended ≡ false)
IsGrown new_bytes appended p (some q) =
    (p.buffer.allocated + next_size p.buffer ≤ ssize_max)
    × (appended ≡ true)
    × (b : List ℕ) × (new_bytes (next_size p.buffer) ≡ some b)
    × (q ≡ grown p b)

IsWithin-is_over :
    (max_length : Option ℕ) (allocated : ℕ)
    → IsWithin max_length allocated
    → is_over max_length allocated ≡ false
IsWithin-is_over none allocated within = refl
IsWithin-is_over (some m) allocated within = ground (arith, within)

-- The cases of OutputBuffer_Grow where no more is allocated than the limit and Py_ssize_t allow.
pub grow-IsGrown :
    (new_bytes : NewBytes) (appended : Bool) (p : Output)
    → p.buffer.allocated ≤ ssize_max
    → IsWithin p.buffer.max_length p.buffer.allocated
    → IsGrown new_bytes appended p (grow new_bytes appended p)
unfolding grow
grow-IsGrown new_bytes appended p small within =
    let not_over = IsWithin-is_over p.buffer.max_length p.buffer.allocated within in
    elim (Bool-cases (ltb (ssize_max - p.buffer.allocated) (next_size p.buffer))) [
      | inl over ↦ rw (not_over, over) (inl (ground (arith, over)))
      | inr fits ↦ elim (Option-cases (new_bytes (next_size p.buffer))) [
        | inl failed ↦ rw (not_over, fits, failed) (inr (inl failed))
        | inr (b, got) ↦ elim (Bool-cases appended) [
          | inl made ↦ rw (not_over, fits, got, made) (ground (arith, fits), refl, b, got, refl)
          | inr refused ↦ rw (not_over, fits, got, refused) (inr (inr refl))
        ]
      ]
    ]

pub grown-IsFilled :
    {p : Output} {bytes : List ℕ} (b : List ℕ)
    → IsFilled p bytes
    → p.ob.pos ≡ p.ob.size
    → length b ≡ next_size p.buffer
    → p.buffer.allocated + next_size p.buffer ≤ ssize_max
    → IsFilled (grown p b) bytes
unfolding next_size take
grown-IsFilled {p} {bytes} b h full size fits =
    let whole : take p.ob.pos h.last ≡ h.last =
      ap (λ n. take n h.last) (full ∙ h.size) ∙ take-length h.last in
    let joined : join (h.full ++ h.last ∷ []) ≡ join h.full ++ h.last = join-last h.full h.last in
    record {
      full = h.full ++ h.last ∷ [];
      last = b;
      list = ap (λ xs. xs ++ b ∷ []) h.list;
      dst = ap length h.list;
      size = sym size;
      pos_le = omega arith;
      written =
          h.written
          ∙ ap (λ xs. join h.full ++ xs) whole
          ∙ sym joined
          ∙ sym (append-nil (join (h.full ++ h.last ∷ [])));
      allocated =
          omega (arith, ap length joined, length-append (join h.full) h.last, h.allocated, h.size);
      within = limit_size-IsWithin p.buffer.max_length p.buffer.allocated _ h.within;
      small = fits;
    }
