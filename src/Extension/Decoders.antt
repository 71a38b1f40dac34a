-- ===== src/Extension/Decoders.antt =====
-- The decoder objects and their __init__ methods.
use pyppmd.Base.{ℕ, Bool, true, false, ◌&&◌, Option, none, some, if◌then◌else◌}
use pyppmd.Base.Memory.{Memory}
use pyppmd.RangeCoder.Dec.{RangeDec}
use pyppmd.Ppmd7.State.{Ppmd7}
use pyppmd.Ppmd7.Tables as Tables7
use pyppmd.Ppmd7.Restart as Restart7
use pyppmd.Ppmd8.State.{Ppmd8}
use pyppmd.Ppmd8.Tables as Tables8
use pyppmd.Ppmd8.Restart as Restart8
use pyppmd.Carryless.Coder.{Decoder}
use pyppmd.Threads.Control.{Control, decode_init}
use pyppmd.Extension.Arguments.{
  Argument, bad_argument, out_of_memory, init_twice, unset, Made, complete, no_buffers, no_model,
  no_rest, Reply, returned, raised, order_of, memory_of,
}
use pyppmd.Extension.Input.{Unconsumed}

-- The fields of a decoder object. `control` is the thread control with the model that it is made for,
-- `none` before __init__ has made them; `dangling`: the pointer to the model is one to memory that
-- has been freed.
pub record DecoderObject (M : Type 0) : Type 0 where
  pub inited : Bool
  pub inited2 : Bool
  pub eof : Bool
  pub needs_input : Bool
  pub input : Unconsumed
  pub control : Option (Control M)
  pub dangling : Bool

-- `tp_alloc` fills the object with zeros.
unfoldable pub new_decoder : {M : Type 0} → DecoderObject M
new_decoder = record {
  inited = false;
  inited2 = false;
  eof = false;
  needs_input = false;
  input = record { input_buffer = none; input_buffer_size = 0; in_begin = 0; in_end = 0 };
  control = none;
  dangling = false;
}

-- What the allocator answers to the requests, in their order: the reader, the output blocks, the
-- two buffers and the thread's structure, the model with what it holds at first, its block, and
-- the thread control.
pub record DecoderAllocation (M : Type 0) : Type 0 where
  pub buffer_reader : Bool
  pub blocks_output_buffer : Bool
  pub in_buffer : Bool
  pub out_buffer : Bool
  pub thread_info : Bool
  pub model : Option M
  pub block : ℕ → Option Memory
  pub thread_control : Bool

unfoldable pub has_buffers : {M : Type 0} → DecoderAllocation M → Bool
has_buffers a =
    a.buffer_reader && (a.blocks_output_buffer && (a.in_buffer && (a.out_buffer && a.thread_info)))

module _ {M : Type 0} where
  -- The end of the method; `ready` sets the flags. Where the model's structure is refused it sets no
  -- exception; where something behind it is, it frees the structure and leaves the pointer.
  unfoldable pub give_control :
      (ready : DecoderObject M → DecoderObject M)
      → DecoderObject M
      → Made (Control M)
      → Reply Unit × DecoderObject M
  give_control ready self no_buffers = (raised out_of_memory, self)
  give_control ready self no_model = (raised unset, self)
  give_control ready self no_rest = (raised out_of_memory, record self { dangling = true })
  give_control ready self (complete c) = (returned tt, record (ready self) { control = some c })

  -- Behind the first assignments, whose result is `started`.
  unfoldable pub init_decoder_object :
      (max : ℕ)
      → (ready : DecoderObject M → DecoderObject M) → (make : ℕ → ℕ → Made (Control M))
      → (max_order mem_size : Argument) → (started self : DecoderObject M)
      → Reply Unit × DecoderObject M
  unfolding give_control
  init_decoder_object max ready make max_order mem_size started self =
      if self.inited then (raised init_twice, self) else elim (order_of max max_order) [
        | none ↦ (raised bad_argument, started)
        | some order ↦ elim (memory_of mem_size) [
          | none ↦ (raised bad_argument, started)
          | some size ↦ give_control ready started (make order size)
        ]
      ]

abbrev pub Decoder7 : Type 0
Decoder7 = Ppmd7 × RangeDec

-- Behind Ppmd7_Alloc in Ppmd7Decoder_init; `range_dec` is what the range decoder holds at first.
unfoldable pub decoder_model7 :
    DecoderAllocation Ppmd7
    → (range_dec : Option RangeDec) → (order : ℕ) → Bool × Ppmd7
    → Made (Control Decoder7)
decoder_model7 a range_dec order r =
    if r.0 && a.thread_control
    then elim range_dec [
      | none ↦ no_rest
      | some rc ↦ complete (decode_init (Restart7.init r.1 order, rc))
    ]
    else no_rest

unfoldable pub make_decoder7 :
    DecoderAllocation Ppmd7
    → (range_dec : Option RangeDec) → (order size : ℕ) → Made (Control Decoder7)
unfolding decoder_model7 has_buffers
make_decoder7 a range_dec order size =
    if has_buffers a
    then elim a.model [
      | none ↦ no_model
      | some p ↦ decoder_model7 a range_dec order (Tables7.alloc (Tables7.construct p) size a.block)
    ]
    else no_buffers

-- Ppmd7Decoder_init
unfoldable pub ppmd7_decoder_init :
    DecoderAllocation Ppmd7
    → (range_dec : Option RangeDec) → (max_order mem_size : Argument) → DecoderObject Decoder7
    → Reply Unit × DecoderObject Decoder7
unfolding init_decoder_object make_decoder7
ppmd7_decoder_init a range_dec max_order mem_size self =
    init_decoder_object 64 (λ s. record s { eof = false; needs_input = true })
      (make_decoder7 a range_dec) max_order mem_size (record self { inited = true }) self

abbrev pub Decoder8 : Type 0
Decoder8 = Ppmd8 × Decoder

-- Behind Ppmd8_Alloc in Ppmd8Decoder_init; the range decoder's fields are part of the structure,
-- and `rc` is what they hold at first.
unfoldable pub decoder_model8 :
    (thread_control : Bool)
    → (restore_method order : ℕ) → (rc : Decoder) → Bool × Ppmd8
    → Made (Control Decoder8)
decoder_model8 thread_control restore_method order rc r =
    if r.0 && thread_control
    then complete (decode_init (Restart8.init r.1 order restore_method, rc))
    else no_rest

unfoldable pub make_decoder8 :
    DecoderAllocation Decoder8 → (restore_method order size : ℕ) → Made (Control Decoder8)
unfolding decoder_model8 has_buffers
make_decoder8 a restore_method order size =
    if has_buffers a
    then elim a.model [
      | none ↦ no_model
      | some m ↦
          decoder_model8 a.thread_control restore_method order m.1
            (Tables8.alloc (Tables8.construct m.0) size a.block)
    ]
    else no_buffers

-- Ppmd8Decoder_init
unfoldable pub ppmd8_decoder_init :
    DecoderAllocation Decoder8
    → (restore_method : ℕ) → (max_order mem_size : Argument) → DecoderObject Decoder8
    → Reply Unit × DecoderObject Decoder8
unfolding init_decoder_object make_decoder8
ppmd8_decoder_init a restore_method max_order mem_size self =
    init_decoder_object 16 (λ s. s) (make_decoder8 a restore_method) max_order mem_size
      (record self { inited = true; needs_input = true }) self
