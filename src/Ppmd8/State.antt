-- ===== src/Ppmd8/State.antt =====
-- The data of src/lib/ppmd/Ppmd8.h, less the range coder's fields, which stand in records of their
-- own (Carryless). Pointers are offsets from Base.
use pyppmd.Base.{ℕ, ◌+◌, ◌-◌, Bool, List, get_or}
use pyppmd.Base.Memory.{Memory, load16, load32, store8, store16, store32}
use pyppmd.Ppmd7.State.{See}

-- `allocated` says whether Base is set; RunLength and InitRL are the bit patterns of an Int32. A
-- context with one state has NumStats 0.
pub record Ppmd8 : Type 0 where
  pub min_context : ℕ
  pub max_context : ℕ
  pub found_state : ℕ
  pub order_fall : ℕ
  pub init_esc : ℕ
  pub prev_success : ℕ
  pub max_order : ℕ
  pub run_length : ℕ
  pub init_rl : ℕ
  pub size : ℕ
  pub glue_count : ℕ
  pub allocated : Bool
  pub lo_unit : ℕ
  pub hi_unit : ℕ
  pub text : ℕ
  pub units_start : ℕ
  pub align_offset : ℕ
  pub restore_method : ℕ
  pub indx2units : List ℕ
  pub units2indx : List ℕ
  pub free_list : List ℕ
  pub stamps : List ℕ
  pub ns2bsindx : List ℕ
  pub ns2indx : List ℕ
  pub dummy_see : See
  pub see : List See
  pub bin_summ : List ℕ
  pub mem : Memory

abbrev pub empty_node : ℕ
empty_node = 0xFFFF_FFFF

-- `U2I`, `I2U` and `p->FreeList[indx]`.
abbrev pub u2i : Ppmd8 → ℕ → ℕ
u2i p nu = get_or p.units2indx (nu - 1) 0

abbrev pub i2u : Ppmd8 → ℕ → ℕ
i2u p indx = get_or p.indx2units indx 0

abbrev pub free_list_at : Ppmd8 → ℕ → ℕ
free_list_at p indx = get_or p.free_list indx 0

-- The fields of a context at `c`.
abbrev pub num_stats : Ppmd8 → ℕ → ℕ
num_stats p c = p.mem c

abbrev pub flags : Ppmd8 → ℕ → ℕ
flags p c = p.mem (c + 1)

abbrev pub summ_freq : Ppmd8 → ℕ → ℕ
summ_freq p c = load16 p.mem (c + 2)

abbrev pub stats : Ppmd8 → ℕ → ℕ
stats p c = load32 p.mem (c + 4)

abbrev pub suffix : Ppmd8 → ℕ → ℕ
suffix p c = load32 p.mem (c + 8)

-- The first fields of a state at `s`.
abbrev pub symbol : Ppmd8 → ℕ → ℕ
symbol p s = p.mem s

abbrev pub freq : Ppmd8 → ℕ → ℕ
freq p s = p.mem (s + 1)

-- The fields of a node at `n`.
abbrev pub node_stamp : Ppmd8 → ℕ → ℕ
node_stamp p n = load32 p.mem n

abbrev pub node_next : Ppmd8 → ℕ → ℕ
node_next p n = load32 p.mem (n + 4)

abbrev pub node_nu : Ppmd8 → ℕ → ℕ
node_nu p n = load32 p.mem (n + 8)

abbrev pub put8 : Ppmd8 → ℕ → ℕ → Ppmd8
put8 p a v = record p { mem = store8 p.mem a v }

abbrev pub put16 : Ppmd8 → ℕ → ℕ → Ppmd8
put16 p a v = record p { mem = store16 p.mem a v }

abbrev pub put32 : Ppmd8 → ℕ → ℕ → Ppmd8
put32 p a v = record p { mem = store32 p.mem a v }

abbrev pub set_num_stats : Ppmd8 → ℕ → ℕ → Ppmd8
set_num_stats p c v = put8 p c v

abbrev pub set_flags : Ppmd8 → ℕ → ℕ → Ppmd8
set_flags p c v = put8 p (c + 1) v

abbrev pub set_summ_freq : Ppmd8 → ℕ → ℕ → Ppmd8
set_summ_freq p c v = put16 p (c + 2) v

abbrev pub set_stats : Ppmd8 → ℕ → ℕ → Ppmd8
set_stats p c v = put32 p (c + 4) v

abbrev pub set_suffix : Ppmd8 → ℕ → ℕ → Ppmd8
set_suffix p c v = put32 p (c + 8) v

abbrev pub set_freq : Ppmd8 → ℕ → ℕ → Ppmd8
set_freq p s v = put8 p (s + 1) v
