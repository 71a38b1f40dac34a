-- ===== src/Extension/Arguments.antt =====
-- What the __init__ methods make of their arguments, up to the model that they leave. PyMem_Malloc
-- and the allocator that is built on it are arguments.
use pyppmd.Base.{ℕ, ◌*◌, ◌-◌, ◌^◌, Bool, Option, none, some, [], ltb, if◌then◌else◌, true, false}
use pyppmd.Base.Memory.{Memory}
use pyppmd.RangeCoder.Enc.{RangeEnc, init_enc}
use pyppmd.Carryless.Coder.{Encoder, init_encoder}
use pyppmd.Ppmd7.State.{Ppmd7}
use pyppmd.Ppmd7.Tables as Tables7
use pyppmd.Ppmd7.Restart as Restart7
use pyppmd.Ppmd8.State.{Ppmd8}
use pyppmd.Ppmd8.Tables as Tables8
use pyppmd.Ppmd8.Restart as Restart8

-- `Py_None`, an object that is no int, an int, and an int for which PyLong_AsUnsignedLong fails.
pub data Argument : Type 0 where
  nothing : Argument
  other : Argument
  number : ℕ → Argument
  misfit : Argument

unfoldable pub clamp : (low high n : ℕ) → ℕ
clamp low high n = if ltb n low then low else if ltb high n then high else n

-- `clamp_max_order` and `clamp_memory_size`
unfoldable pub clamp_max_order : (n max : ℕ) → ℕ
unfolding clamp
clamp_max_order n max = clamp 2 max n

unfoldable pub clamp_memory_size : ℕ → ℕ
unfolding clamp
clamp_memory_size n = clamp (2 ^ 11) (0xFFFF_FFFF - 12 * 3) n

-- `none` is the ValueError.
unfoldable pub order_of : (max : ℕ) → Argument → Option ℕ
order_of max nothing = some 6
order_of max other = some (clamp_max_order 6 max)
order_of max (number n) = some (clamp_max_order n max)
order_of max misfit = none

unfoldable pub memory_of : Argument → Option ℕ
memory_of nothing = some (16 * 2 ^ 20)
memory_of other = some (clamp_memory_size (16 * 2 ^ 20))
memory_of (number n) = some (clamp_memory_size n)
memory_of misfit = none

-- Why a call fails.
pub data Error : Type 0 where
  bad_argument : Error
  out_of_memory : Error
  init_twice : Error
  flush_twice : Error
  not_enough_data : Error
  corrupted : Error
  -- The ValueError "No memory."
  no_memory : Error
  -- -1 is returned, and no exception is set.
  unset : Error

-- `endless`: a loop in the call does not end within its fuel.
pub data Reply (A : Type 0) : Type 0 where
  returned : A → Reply A
  raised : Error → Reply A
  endless : Reply A

-- The fields of an encoder object. `parts` is the model and the coder, `none` before __init__ has
-- made them; `dangling`: the pointer to the model is one to memory that has been freed.
pub record EncoderObject (M E : Type 0) : Type 0 where
  pub inited : Bool
  pub flushed : Bool
  pub parts : Option (M × E)
  pub dangling : Bool

-- `tp_alloc` fills the object with zeros.
unfoldable pub new_encoder : {M E : Type 0} → EncoderObject M E
new_encoder = record { inited = false; flushed = false; parts = none; dangling = false }

-- `PyMem_Malloc` for a structure: what it holds at first, `none` for NULL; and for a model's block.
pub record Allocation (M : Type 0) : Type 0 where
  pub model : Option M
  pub block : ℕ → Option Memory
  pub coder : Bool

-- What the answers make: all of it, not the buffers that come before the model, not the model, or
-- not all that comes behind it.
pub data Made (A : Type 0) : Type 0 where
  complete : A → Made A
  no_buffers : Made A
  no_model : Made A
  no_rest : Made A

-- The end of the method. Where the model's structure is refused it sets no exception; where something
-- behind it is, it frees the structure and leaves the pointer.
unfoldable pub give_parts :
    {M E : Type 0} → EncoderObject M E → Made (M × E) → Reply Unit × EncoderObject M E
give_parts self no_buffers = (raised out_of_memory, self)
give_parts self no_model = (raised unset, self)
give_parts self no_rest = (raised out_of_memory, record self { dangling = true })
give_parts self (complete parts) = (returned tt, record self { parts = some parts })

-- Behind the arguments; `make` is what is done with the order and the size.
unfoldable pub init_object :
    {M E : Type 0}
    → (max : ℕ) → (make : ℕ → ℕ → Made (M × E)) → (max_order mem_size : Argument)
    → EncoderObject M E
    → Reply Unit × EncoderObject M E
unfolding give_parts
init_object max make max_order mem_size self =
    let started = record self { inited = true } in
    if self.inited then (raised init_twice, self) else elim (order_of max max_order) [
      | none ↦ (raised bad_argument, started)
      | some order ↦ elim (memory_of mem_size) [
        | none ↦ (raised bad_argument, started)
        | some size ↦ give_parts started (make order size)
      ]
    ]

-- The model and the coder of Ppmd7Encoder_init.
unfoldable pub make_ppmd7 : Allocation Ppmd7 → (order size : ℕ) → Made (Ppmd7 × RangeEnc)
make_ppmd7 a order size = elim a.model [
  | none ↦ no_model
  | some p ↦
      let (allocated, q) = Tables7.alloc (Tables7.construct p) size a.block in
      if allocated
      then (if a.coder then complete (Restart7.init q order, init_enc []) else no_rest)
      else no_rest
]

unfoldable pub ppmd7_encoder_init :
    Allocation Ppmd7
    → (max_order mem_size : Argument) → EncoderObject Ppmd7 RangeEnc
    → Reply Unit × EncoderObject Ppmd7 RangeEnc
unfolding init_object make_ppmd7
ppmd7_encoder_init a = init_object 64 (make_ppmd7 a)

-- Those of Ppmd8Encoder_init, where the coder is part of the model.
unfoldable pub make_ppmd8 :
    Allocation Ppmd8 → (restore_method order size : ℕ) → Made (Ppmd8 × Encoder)
make_ppmd8 a restore_method order size = elim a.model [
  | none ↦ no_model
  | some p ↦
      let (allocated, q) = Tables8.alloc (Tables8.construct p) size a.block in
      if allocated
      then complete (Restart8.init q order restore_method, init_encoder [])
      else no_rest
]

unfoldable pub ppmd8_encoder_init :
    Allocation Ppmd8
    → (restore_method : ℕ) → (max_order mem_size : Argument) → EncoderObject Ppmd8 Encoder
    → Reply Unit × EncoderObject Ppmd8 Encoder
unfolding init_object make_ppmd8
ppmd8_encoder_init a restore_method = init_object 16 (make_ppmd8 a restore_method)
