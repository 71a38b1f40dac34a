-- ===== src/Extension/Paired.antt =====
-- What __init__ of a variant H decoder leaves, beside what the encoder's leaves.
use pyppmd.Base.{
  ℕ, ◌^◌, ◌≤◌, ◌<◌, ◌≡◌, ◌⊎◌, refl, ◌∙◌, sym, ap, Bool, true, false, Bool-cases, Option, none, some,
  [], inl, inr, Option-cases, if◌then◌else◌,
}
use mathlib.Core.Path.{subst}
use pyppmd.Base.Memory.{Memory}
use pyppmd.RangeCoder.Enc.{RangeEnc, init_enc}
use pyppmd.RangeCoder.Dec.{RangeDec}
use pyppmd.Ppmd7.State.{Ppmd7}
use pyppmd.Ppmd7.Tables.{construct, alloc}
use pyppmd.Ppmd7.Restart.{init}
use pyppmd.Ppmd7.Agree.Symbol.{IsSound}
use pyppmd.Threads.Control.{Control, decode_init}
use pyppmd.Extension.Arguments.{
  Argument, misfit, bad_argument, out_of_memory, Reply, returned, raised, endless, new_encoder,
  unset, Made, complete, no_buffers, no_model, no_rest, Allocation, order_of, memory_of, give_parts,
  init_object, make_ppmd7, ppmd7_encoder_init,
}
use pyppmd.Extension.Ready.{
  IsMade, make_ppmd7-IsMade, order_of-none, memory_of-none, memory_of-bounds,
}
use pyppmd.Extension.Decoders.{
  DecoderObject, new_decoder, DecoderAllocation, has_buffers, give_control, init_decoder_object,
  Decoder7, decoder_model7, make_decoder7, ppmd7_decoder_init,
}

-- An encoder's allocator that gives what the decoder's gives.
abbrev pub encoder_allocation : DecoderAllocation Ppmd7 → Allocation Ppmd7
encoder_allocation a = record { model = a.model; block = a.block; coder = true }

-- The decoder's allocator refuses a request behind that for the model's structure.
abbrev pub Denies : DecoderAllocation Ppmd7 → Option RangeDec → Type 0
Denies a rd = ((n : ℕ) × (a.block n ≡ none)) ⊎ (a.thread_control ≡ false) ⊎ (rd ≡ none)

module _ (a : DecoderAllocation Ppmd7) (rd : Option RangeDec) (order size : ℕ) where
  -- The new thread control has a model that can code, which is the encoder's.
  abbrev IsTwin : Made (Control Decoder7) → Type 0
  IsTwin no_buffers = has_buffers a ≡ false
  IsTwin no_model = a.model ≡ none
  IsTwin no_rest = Denies a rd
  IsTwin (complete c) =
      (m : Decoder7) × (c ≡ decode_init m)
      × IsSound m.0
      × (make_ppmd7 (encoder_allocation a) order size ≡ complete (m.0, init_enc []))

  abbrev encoder_model : Bool × Ppmd7 → Made (Ppmd7 × RangeEnc)
  encoder_model r = if r.0 then complete (init r.1 order, init_enc []) else no_rest

  -- Behind a block for the model.
  module _ (q : Ppmd7) where
    no_control : a.thread_control ≡ false → decoder_model7 a rd order (true, q) ≡ no_rest
    unfolding decoder_model7
    no_control h = rw (decoder_model7, h) refl

    no_range_dec :
        a.thread_control ≡ true → rd ≡ none → decoder_model7 a rd order (true, q) ≡ no_rest
    unfolding decoder_model7
    no_range_dec h h' = rw (decoder_model7, h, h') refl

    with_range_dec :
        (rc : RangeDec)
        → a.thread_control ≡ true
        → rd ≡ some rc
        → decoder_model7 a rd order (true, q) ≡ complete (decode_init (init q order, rc))
    unfolding decoder_model7
    with_range_dec rc h h' = rw (decoder_model7, h, h') refl

  decoder_model7-IsTwin :
      (r : Bool × Ppmd7)
      → make_ppmd7 (encoder_allocation a) order size ≡ encoder_model r
      → IsMade (encoder_allocation a) (encoder_model r)
      → IsTwin (decoder_model7 a rd order r)
  unfolding decoder_model7
  decoder_model7-IsTwin (false, q) same (inl refused) = inl refused
  decoder_model7-IsTwin (false, q) same (inr never) = cc never
  decoder_model7-IsTwin (true, q) same (sound, _) = elim (Bool-cases a.thread_control) [
    | inl h ↦ elim (Option-cases rd) [
      | inl h' ↦ subst IsTwin (sym (no_range_dec q h h')) (inr (inr h'))
      | inr (rc, h') ↦
          subst IsTwin (sym (with_range_dec q rc h h')) ((init q order, rc), refl, sound, same)
    ]
    | inr h ↦ subst IsTwin (sym (no_control q h)) (inr (inl h))
  ]

  without_buffers : has_buffers a ≡ false → make_decoder7 a rd order size ≡ no_buffers
  unfolding make_decoder7
  without_buffers h = rw (make_decoder7, h) refl

  without_model : has_buffers a ≡ true → a.model ≡ none → make_decoder7 a rd order size ≡ no_model
  unfolding make_decoder7
  without_model h h' = rw (make_decoder7, h, h') refl

  with_model :
      (p : Ppmd7)
      → has_buffers a ≡ true
      → a.model ≡ some p
      → make_decoder7 a rd order size ≡ decoder_model7 a rd order (alloc (construct p) size a.block)
  unfolding make_decoder7
  with_model p h h' = rw (make_decoder7, h, h') refl

  encoder_with_model :
      (p : Ppmd7)
      → a.model ≡ some p
      → make_ppmd7 (encoder_allocation a) order size
        ≡ encoder_model (alloc (construct p) size a.block)
  unfolding make_ppmd7
  encoder_with_model p h = rw (make_ppmd7, h) refl

  pub make_decoder7-IsTwin :
      ((n : ℕ) (m : Memory) → a.block n ≡ some m → (x : ℕ) → m x < 256)
      → 2 ^ 11 ≤ size
      → size ≤ 0xFFFF_FFDB
      → IsTwin (make_decoder7 a rd order size)
  make_decoder7-IsTwin bytes low high = elim (Bool-cases (has_buffers a)) [
    | inl buffers ↦ elim (Option-cases a.model) [
      | inl h ↦ subst IsTwin (sym (without_model buffers h)) h
      | inr (p, h) ↦
          let made = make_ppmd7-IsMade (encoder_allocation a) order size bytes low high in
          subst IsTwin (sym (with_model p buffers h)) (
            decoder_model7-IsTwin (alloc (construct p) size a.block) (encoder_with_model p h)
              (subst (IsMade (encoder_allocation a)) (encoder_with_model p h) made))
    ]
    | inr h ↦ subst IsTwin (sym (without_buffers h)) h
  ]

-- What the method leaves on a new object.
abbrev pub IsPaired :
    DecoderAllocation Ppmd7
    → Option RangeDec
    → (max_order mem_size : Argument) → Reply Unit × DecoderObject Decoder7
    → Type 0
IsPaired a rd o m (returned t, self) =
    (self.inited ≡ true)
    × (self.needs_input ≡ true)
    × (self.eof ≡ false)
    × (self.dangling ≡ false)
    × (parts : Decoder7) × (self.control ≡ some (decode_init parts))
    × IsSound parts.0
    × (ppmd7_encoder_init (encoder_allocation a) o m new_encoder ≡ (
      returned tt,
      record {
        inited = true;
        flushed = false;
        parts = some (parts.0, init_enc []);
        dangling = false;
      },
    ))
IsPaired a rd o m (raised e, self) =
    (self.inited ≡ true)
    × (self.control ≡ none)
    × (((e ≡ bad_argument) × (self.dangling ≡ false) × ((o ≡ misfit) ⊎ (m ≡ misfit)))
        ⊎ ((e ≡ unset) × (self.dangling ≡ false) × (a.model ≡ none))
        ⊎ ((e ≡ out_of_memory) × (self.dangling ≡ false) × (has_buffers a ≡ false))
        ⊎ ((e ≡ out_of_memory) × (self.dangling ≡ true) × Denies a rd))
IsPaired a rd o m (endless, self) = 1 ≤ 0

module _ (a : DecoderAllocation Ppmd7) (rd : Option RangeDec) (o m : Argument) where
  module _ (order size : ℕ) (h : order_of 64 o ≡ some order) (h' : memory_of m ≡ some size) where
    begun : DecoderObject Decoder7
    unfolding new_decoder
    begun = record new_decoder { inited = true }

    encoder_gives :
        ppmd7_encoder_init (encoder_allocation a) o m new_encoder
        ≡ give_parts
            (record { inited = true; flushed = false; parts = none; dangling = false })
            (make_ppmd7 (encoder_allocation a) order size)
    unfolding ppmd7_encoder_init init_object new_encoder
    encoder_gives = rw (h, h') refl

    decoder_gives :
        ppmd7_decoder_init a rd o m new_decoder
        ≡ give_control
            (λ s. record s { eof = false; needs_input = true })
            begun
            (make_decoder7 a rd order size)
    unfolding ppmd7_decoder_init init_decoder_object new_decoder begun
    decoder_gives = rw (h, h') refl

    give_control-IsPaired :
        (r : Made (Control Decoder7))
        → IsTwin a rd order size r
        → IsPaired a rd o m
            (give_control (λ s. record s { eof = false; needs_input = true }) begun r)
    unfolding give_control begun new_decoder give_parts
    give_control-IsPaired no_buffers refused = (refl, refl, inr (inr (inl (refl, refl, refused))))
    give_control-IsPaired no_model refused = (refl, refl, inr (inl (refl, refl, refused)))
    give_control-IsPaired no_rest denied = (refl, refl, inr (inr (inr (refl, refl, denied))))
    give_control-IsPaired (complete c) (parts, new, sound, same) =
        (refl, refl, refl, refl, parts, ap some new, sound, encoder_gives ∙ ap (give_parts _) same)

  -- Ppmd7Decoder_init on a new object, where a block that the allocator gives holds bytes: where it
  -- returns, the object asks for input and is not at its end, its worker has not started, and its
  -- model can code each symbol and is the one that Ppmd7Encoder_init makes of the same arguments, the
  -- allocator's answers being the same; it fails with a ValueError only for an int that does not
  -- fit, without an exception only where the model's structure is refused, and with a MemoryError only
  -- where a buffer or a later request is. Where it fails the object has no thread control, and its
  -- pointer to the model is left to freed memory where a request behind the structure is refused, and
  -- there only. In each case it is marked as initialised.
  pub ppmd7_decoder_init-IsPaired :
      ((n : ℕ) (b : Memory) → a.block n ≡ some b → (x : ℕ) → b x < 256)
      → IsPaired a rd o m (ppmd7_decoder_init a rd o m new_decoder)
  unfolding ppmd7_decoder_init init_decoder_object new_decoder begun
  ppmd7_decoder_init-IsPaired bytes = elim (Option-cases (order_of 64 o)) [
    | inl h ↦ rw h (refl, refl, inl (refl, refl, inl (order_of-none 64 o h)))
    | inr (order, h) ↦ elim (Option-cases (memory_of m)) [
      | inl h' ↦ rw (h, h') (refl, refl, inl (refl, refl, inr (memory_of-none m h')))
      | inr (size, h') ↦
          let (low, high) = memory_of-bounds m size h' in
          let made = make_decoder7-IsTwin a rd order size bytes low high in
          subst (IsPaired a rd o m) (sym (decoder_gives order size h h'))
            (give_control-IsPaired order size h h' (make_decoder7 a rd order size) made)
    ]
  ]
