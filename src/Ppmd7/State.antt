-- ===== src/Ppmd7/State.antt =====
-- The data of src/lib/ppmd/Ppmd7.h and Ppmd.h. Pointers are offsets from Base, so that REF and its
-- inverses are identities, as on a machine with 64-bit pointers.
use pyppmd.Base.{ℕ, ◌+◌, ◌-◌, ◌*◌, ◌^◌, Bool, List, get_or, u32}
use pyppmd.Base.Memory.{Memory, load16, load32, store8, store16, store32}

abbrev pub num_indexes : ℕ
num_indexes = 38

abbrev pub unit_size : ℕ
unit_size = 12

abbrev pub state_size : ℕ
state_size = 6

abbrev pub max_freq : ℕ
max_freq = 124

abbrev pub period_bits : ℕ
period_bits = 7

pub record See : Type 0 where
  pub summ : ℕ
  pub shift : ℕ
  pub count : ℕ

-- `allocated` says whether Base is set. RunLength and InitRL are the bit patterns of an Int32. The
-- tables `see` and `bin_summ` hold their rows one behind the other.
pub record Ppmd7 : Type 0 where
  pub min_context : ℕ
  pub max_context : ℕ
  pub found_state : ℕ
  pub order_fall : ℕ
  pub init_esc : ℕ
  pub prev_success : ℕ
  pub max_order : ℕ
  pub hi_bits_flag : ℕ
  pub run_length : ℕ
  pub init_rl : ℕ
  pub size : ℕ
  pub glue_count : ℕ
  pub allocated : Bool
  pub lo_unit : ℕ
  pub hi_unit : ℕ
  pub text : ℕ
  pub units_start : ℕ
  pub align_offset : ℕ
  pub indx2units : List ℕ
  pub units2indx : List ℕ
  pub free_list : List ℕ
  pub ns2indx : List ℕ
  pub ns2bsindx : List ℕ
  pub hb2flag : List ℕ
  pub dummy_see : See
  pub see : List See
  pub bin_summ : List ℕ
  pub mem : Memory

-- `(UInt32)(a - b)` on pointers.
abbrev pub ptr_diff : ℕ → ℕ → ℕ
ptr_diff a b = u32 (a + 2 ^ 32 - b)

-- `a - b` and `a + b` on `unsigned`.
abbrev pub sub32 : ℕ → ℕ → ℕ
sub32 a b = u32 (a + 2 ^ 32 - b)

-- `U2B`, `U2I` and `I2U`.
abbrev pub u2b : ℕ → ℕ
u2b nu = u32 (nu * unit_size)

abbrev pub u2i : Ppmd7 → ℕ → ℕ
u2i p nu = get_or p.units2indx (nu - 1) 0

abbrev pub i2u : Ppmd7 → ℕ → ℕ
i2u p indx = get_or p.indx2units indx 0

abbrev pub free_list_at : Ppmd7 → ℕ → ℕ
free_list_at p indx = get_or p.free_list indx 0

-- The fields of a context at `c`, and its only state.
abbrev pub num_stats : Ppmd7 → ℕ → ℕ
num_stats p c = load16 p.mem c

abbrev pub summ_freq : Ppmd7 → ℕ → ℕ
summ_freq p c = load16 p.mem (c + 2)

abbrev pub stats : Ppmd7 → ℕ → ℕ
stats p c = load32 p.mem (c + 4)

abbrev pub suffix : Ppmd7 → ℕ → ℕ
suffix p c = load32 p.mem (c + 8)

abbrev pub one_state : ℕ → ℕ
one_state c = c + 2

-- The first fields of a state at `s`.
abbrev pub symbol : Ppmd7 → ℕ → ℕ
symbol p s = p.mem s

abbrev pub freq : Ppmd7 → ℕ → ℕ
freq p s = p.mem (s + 1)

abbrev pub put8 : Ppmd7 → ℕ → ℕ → Ppmd7
put8 p a v = record p { mem = store8 p.mem a v }

abbrev pub put16 : Ppmd7 → ℕ → ℕ → Ppmd7
put16 p a v = record p { mem = store16 p.mem a v }

abbrev pub put32 : Ppmd7 → ℕ → ℕ → Ppmd7
put32 p a v = record p { mem = store32 p.mem a v }

abbrev pub set_num_stats : Ppmd7 → ℕ → ℕ → Ppmd7
set_num_stats p c v = put16 p c v

abbrev pub set_summ_freq : Ppmd7 → ℕ → ℕ → Ppmd7
set_summ_freq p c v = put16 p (c + 2) v

abbrev pub set_stats : Ppmd7 → ℕ → ℕ → Ppmd7
set_stats p c v = put32 p (c + 4) v

abbrev pub set_suffix : Ppmd7 → ℕ → ℕ → Ppmd7
set_suffix p c v = put32 p (c + 8) v

abbrev pub set_freq : Ppmd7 → ℕ → ℕ → Ppmd7
set_freq p s v = put8 p (s + 1) v
