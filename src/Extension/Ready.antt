-- ===== src/Extension/Ready.antt =====
-- What __init__ of the encoder objects leaves.
use pyppmd.Base.{
  ℕ, ◌+◌, ◌-◌, ◌*◌, ◌%◌, ◌^◌, ◌≤◌, ◌<◌, ◌≡◌, ◌⊎◌, refl, ◌∙◌, ap, Bool, true, false, Bool-cases,
  Option, none, some, [], arith, inl, inr, Option-cases, u32, if◌then◌else◌,
}
use mathlib.Core.Option.{some-injective}
use pyppmd.Base.Memory.{Memory}
use pyppmd.RangeCoder.Enc.{RangeEnc, init_enc}
use pyppmd.Ppmd7.State.{Ppmd7, unit_size}
use pyppmd.Ppmd7.Tables.{construct, free, alloc}
use pyppmd.Ppmd7.Restart.{init}
use pyppmd.Ppmd7.Agree.Symbol.{IsSound}
use pyppmd.Ppmd7.Initial.{init-IsSound}
use pyppmd.Extension.Arguments.{
  Argument, nothing, other, number, misfit, bad_argument, out_of_memory, Reply, returned, raised,
  endless, EncoderObject, new_encoder, Allocation, Made, complete, no_buffers, no_model, no_rest,
  unset, clamp, clamp_memory_size, order_of, memory_of, give_parts, init_object, make_ppmd7,
  ppmd7_encoder_init,
}

clamp_memory_size-bounds :
    (n : ℕ) → (2 ^ 11 ≤ clamp_memory_size n) × (clamp_memory_size n ≤ 0xFFFF_FFDB)
unfolding clamp_memory_size clamp
clamp_memory_size-bounds n = ground arith

pub memory_of-bounds :
    (a : Argument) (n : ℕ) → memory_of a ≡ some n → (2 ^ 11 ≤ n) × (n ≤ 0xFFFF_FFDB)
unfolding memory_of
memory_of-bounds nothing n h = ground arith
memory_of-bounds other n h = rw (some-injective _ _ h) at (clamp_memory_size-bounds (16 * 2 ^ 20))
memory_of-bounds (number m) n h = rw (some-injective _ _ h) at (clamp_memory_size-bounds m)
memory_of-bounds misfit n h = cc h

-- The allocator refuses a request behind that for the model's structure.
abbrev pub Refuses : {M : Type 0} → Allocation M → Type 0
Refuses a = ((n : ℕ) × (a.block n ≡ none)) ⊎ (a.coder ≡ false)

-- The parts are a model that can code and a new coder; they lack where the allocator refuses.
abbrev pub IsMade : Allocation Ppmd7 → Made (Ppmd7 × RangeEnc) → Type 0
IsMade a no_buffers = 1 ≤ 0
IsMade a no_model = a.model ≡ none
IsMade a no_rest = Refuses a
IsMade a (complete parts) = IsSound parts.0 × (parts.1 ≡ init_enc [])

-- Ppmd7_Alloc for a model without a block.
module _ (p : Ppmd7) (size : ℕ) (block : ℕ → Option Memory) (fresh : p.allocated ≡ false) where
  abbrev needed : ℕ
  needed = u32 (4 - size % 4 + size) + unit_size

  alloc-refused : block needed ≡ none → (alloc p size block).0 ≡ false
  unfolding alloc free
  alloc-refused h = rw (alloc, fresh, h) refl

  abbrev given : Memory → Ppmd7
  given m = record p { align_offset = 4 - size % 4; allocated = true; size = size; mem = m }

  alloc-given : (m : Memory) → block needed ≡ some m → alloc p size block ≡ (true, given m)
  unfolding alloc free
  alloc-given m h = rw (alloc, fresh, h) refl

construct-allocated : (p : Ppmd7) → (construct p).allocated ≡ false
unfolding construct
construct-allocated p = refl

module _ (a : Allocation Ppmd7) (order size : ℕ) where
  abbrev choice : Ppmd7 → Bool → Made (Ppmd7 × RangeEnc)
  choice q b = if b then complete (init q order, init_enc []) else no_rest

  abbrev next : Bool × Ppmd7 → Made (Ppmd7 × RangeEnc)
  next r = if r.0 then choice r.1 a.coder else no_rest

  without_model : a.model ≡ none → make_ppmd7 a order size ≡ no_model
  unfolding make_ppmd7
  without_model h = rw (make_ppmd7, h) refl

  without_block :
      (p : Ppmd7)
      → a.model ≡ some p
      → (alloc (construct p) size a.block).0 ≡ false
      → make_ppmd7 a order size ≡ no_rest
  unfolding make_ppmd7
  without_block p h refused = rw (make_ppmd7, h, refused) refl

  with_block :
      (p q : Ppmd7)
      → a.model ≡ some p
      → alloc (construct p) size a.block ≡ (true, q)
      → make_ppmd7 a order size ≡ choice q a.coder
  unfolding make_ppmd7
  with_block p q h done = rw (make_ppmd7, h) (ap next done)

  pub make_ppmd7-IsMade :
      ((n : ℕ) (m : Memory) → a.block n ≡ some m → (x : ℕ) → m x < 256)
      → 2 ^ 11 ≤ size
      → size ≤ 0xFFFF_FFDB
      → IsMade a (make_ppmd7 a order size)
  make_ppmd7-IsMade bytes low high = elim (Option-cases a.model) [
    | inl h ↦ rw (without_model h) h
    | inr (p, h) ↦
        let new = construct-allocated p in
        elim (Option-cases (a.block (needed (construct p) size a.block new))) [
          | inl refused ↦
              rw (without_block p h (alloc-refused (construct p) size a.block new refused))
                (inl (_, refused))
          | inr (m, got) ↦
              let q = given (construct p) size a.block new m in
              let done = alloc-given (construct p) size a.block new m got in
              elim (Bool-cases a.coder) [
                | inl made ↦ rw (with_block p q h done ∙ ap (choice q) made) (
                  init-IsSound q order (bytes _ m got) (omega (arith, low)) (omega (arith, high)),
                  refl,
                )
                | inr refused ↦ rw (with_block p q h done ∙ ap (choice q) refused) (inr refused)
              ]
        ]
  ]

-- What the method leaves on a new object, where it returns, and where it raises an error.
abbrev pub IsReady :
    Allocation Ppmd7
    → (max_order mem_size : Argument) → Reply Unit × EncoderObject Ppmd7 RangeEnc
    → Type 0
IsReady a o m (returned t, self) =
    (self.flushed ≡ false)
    × (self.inited ≡ true)
    × (self.dangling ≡ false)
    × (parts : Ppmd7 × RangeEnc) × (self.parts ≡ some parts)
    × IsSound parts.0
    × (parts.1 ≡ init_enc [])
IsReady a o m (raised e, self) =
    (self.inited ≡ true)
    × (self.parts ≡ none)
    × (((e ≡ bad_argument) × (self.dangling ≡ false) × ((o ≡ misfit) ⊎ (m ≡ misfit)))
        ⊎ ((e ≡ unset) × (self.dangling ≡ false) × (a.model ≡ none))
        ⊎ ((e ≡ out_of_memory) × (self.dangling ≡ true) × Refuses a))
IsReady a o m (endless, self) = 1 ≤ 0

pub order_of-none : (max : ℕ) (o : Argument) → order_of max o ≡ none → o ≡ misfit
unfolding order_of
order_of-none max nothing h = cc h
order_of-none max other h = cc h
order_of-none max (number n) h = cc h
order_of-none max misfit h = refl

pub memory_of-none : (m : Argument) → memory_of m ≡ none → m ≡ misfit
unfolding memory_of
memory_of-none nothing h = cc h
memory_of-none other h = cc h
memory_of-none (number n) h = cc h
memory_of-none misfit h = refl

module _ (a : Allocation Ppmd7) (o m : Argument) where
  begun : EncoderObject Ppmd7 RangeEnc
  begun = record { inited = true; flushed = false; parts = none; dangling = false }

  give_parts-IsReady :
      (r : Made (Ppmd7 × RangeEnc)) → IsMade a r → IsReady a o m (give_parts begun r)
  unfolding give_parts begun
  give_parts-IsReady no_buffers never = absurd (omega (arith, never))
  give_parts-IsReady no_model refused = (refl, refl, inr (inl (refl, refl, refused)))
  give_parts-IsReady no_rest refused = (refl, refl, inr (inr (refl, refl, refused)))
  give_parts-IsReady (complete parts) (sound, new) = (refl, refl, refl, parts, refl, sound, new)

  -- Ppmd7Encoder_init on a new object, where a block that the allocator gives holds bytes: where
  -- it returns, the object has a model that can code each symbol and a new range coder; it fails with
  -- a ValueError only for an int that does not fit, without an exception only where the model's
  -- structure is refused, and with a MemoryError only where a later request is. Where it fails the
  -- object has no parts, and its pointer to the model is left to freed memory in the last case, and in
  -- that only. In each case it is marked as initialised.
  pub ppmd7_encoder_init-IsReady :
      ((n : ℕ) (b : Memory) → a.block n ≡ some b → (x : ℕ) → b x < 256)
      → IsReady a o m (ppmd7_encoder_init a o m new_encoder)
  unfolding ppmd7_encoder_init init_object new_encoder begun
  ppmd7_encoder_init-IsReady bytes = elim (Option-cases (order_of 64 o)) [
    | inl h ↦ rw h (refl, refl, inl (refl, refl, inl (order_of-none 64 o h)))
    | inr (order, h) ↦ elim (Option-cases (memory_of m)) [
      | inl h' ↦ rw (h, h') (refl, refl, inl (refl, refl, inr (memory_of-none m h')))
      | inr (size, h') ↦
          let (low, high) = memory_of-bounds m size h' in
          rw (h, h')
            (give_parts-IsReady (make_ppmd7 a order size)
              (make_ppmd7-IsMade a order size bytes low high))
    ]
  ]
