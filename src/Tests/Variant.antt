-- ===== src/Tests/Variant.antt =====
-- A model of variant I with a node in each of two free lists.
use pyppmd.Base.{◌≡◌, refl, true, arith, [], ◌∷◌}
use pyppmd.Ppmd7.State.{See, u2b, sub32}
use pyppmd.Ppmd8.State.{Ppmd8}
use pyppmd.Ppmd8.Alloc.{insert_node, remove_node}
use pyppmd.Ppmd8.TextArea.{get_used_memory, free_total}
use pyppmd.Ppmd8.FreeLists.{noded, remove_node-insert_node_stamped}
use pyppmd.Ppmd8.Restart.{init}
use pyppmd.Ppmd8.Fresh.{IsFresh, init-IsFresh}
use pyppmd.Ppmd8.Accounts.{get_used_memory-insert_node}

abbrev no_see : See
no_see = record { summ = 0; shift = 7; count = 64 }

abbrev pub stocked : Ppmd8
stocked = record {
  min_context = 0;
  max_context = 0;
  found_state = 0;
  order_fall = 0;
  init_esc = 0;
  prev_success = 0;
  max_order = 6;
  run_length = 0;
  init_rl = 0;
  size = 4096;
  glue_count = 0;
  allocated = true;
  lo_unit = 2000;
  hi_unit = 3000;
  text = 8;
  units_start = 1000;
  align_offset = 4;
  restore_method = 0;
  indx2units = 1 ∷ 2 ∷ [];
  units2indx = 0 ∷ 1 ∷ [];
  free_list = 1200 ∷ 1800 ∷ [];
  stamps = 1 ∷ 1 ∷ [];
  ns2bsindx = [];
  ns2indx = [];
  dummy_see = no_see;
  see = [];
  bin_summ = [];
  mem = λ a. 0;
}

remove_node-insert_node_stamped_example :
    remove_node (insert_node stocked 1400 1) 1
    ≡ (1400, record stocked { mem = noded stocked 1400 1 })
remove_node-insert_node_stamped_example =
    remove_node-insert_node_stamped stocked 1400 1 (omega arith) (omega arith) (omega arith)
      (omega arith)

get_used_memory-insert_node_example :
    get_used_memory (insert_node stocked 1400 1) ≡ sub32 (get_used_memory stocked) (u2b 2)
get_used_memory-insert_node_example =
    get_used_memory-insert_node stocked 1400 1 (omega arith) (omega arith) (omega arith)

-- 4096 bytes less the gap of 1000, the text area of 992 and three units of twelve bytes.
used_before : get_used_memory stocked ≡ 2068
unfolding get_used_memory free_total
used_before = refl

init-IsFresh_example : IsFresh (init stocked 6 1)
init-IsFresh_example = init-IsFresh stocked 6 1 (omega arith) (omega arith)
