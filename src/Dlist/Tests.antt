-- ===== src/Dlist/Tests.antt =====
-- The functions of dlist.c at a ring of three nodes: runs, and the theorems applied.
use mathlib.Core.List.{reverse}
use freertos_addons.Prelude.{◌≡◌, refl, some, List, [], ◌∷◌, arith}
use freertos_addons.Machine.{Cmd, ok, pure, ◌>>=◌, ◌>>◌}
use freertos_addons.Memory.{Ptr, Mem, no_memory, write}
use freertos_addons.Memory.Sample.{fields, value_of}
use freertos_addons.Dlist.{
  get_next, get_prev, set_next, set_prev, insert_node_after, insert_node_before, remove_node, walk,
  for_each_node, for_each_node_reverse,
}
use freertos_addons.Dlist.Ring.{IsRing, IsFree, LeavesRing}
use freertos_addons.Dlist.Remove.{remove_node-LeavesRing}
use freertos_addons.Dlist.Walk.{for_each_node_both}

-- A head at 100 with the nodes 1, 2 and 3, and a node at 9 in no ring.
abbrev three : Mem
three = record no_memory {
  dl_next = fields ((100, 1) ∷ (1, 2) ∷ (2, 3) ∷ (3, 100) ∷ (9, 77) ∷ []);
  dl_prev = fields ((100, 3) ∷ (1, 100) ∷ (2, 1) ∷ (3, 2) ∷ (9, 0) ∷ []);
}

abbrev three-IsRing : IsRing three (100 ∷ 1 ∷ 2 ∷ 3 ∷ [])
three-IsRing = record {
  nodes = record { distinct = (refl, (refl, (refl, (refl, tt)))); ne_null = refl };
  forward = (refl, (refl, (refl, (refl, tt))));
  backward = (refl, (refl, (refl, (refl, tt))));
}

abbrev nine-IsFree : IsFree three (100 ∷ 1 ∷ 2 ∷ 3 ∷ []) 9
nine-IsFree = record {
  ne_null = omega arith;
  outside = refl;
  old_next = 77;
  next_mapped = refl;
  old_prev = 0;
  prev_mapped = refl;
}

ring_remove_node_example :
    LeavesRing three (remove_node 2 three) tt (100 ∷ 1 ∷ 3 ∷ []) (100 ∷ 1 ∷ 3 ∷ [])
ring_remove_node_example = remove_node-LeavesRing three (100 ∷ 1 ∷ []) (3 ∷ []) 2 three-IsRing

ring_for_each_node_example :
    (for_each_node 100 4 three ≡ ok (1 ∷ 2 ∷ 3 ∷ []) three)
    × (for_each_node_reverse 100 4 three ≡ ok (reverse (1 ∷ 2 ∷ 3 ∷ [])) three)
ring_for_each_node_example =
    for_each_node_both three 4 100 (1 ∷ 2 ∷ 3 ∷ []) three-IsRing (omega arith)

-- A run of the model: a removal and an insertion, read back in both directions.
edited : Cmd Mem (List Ptr × List Ptr)
unfolding insert_node_before remove_node insert_node_after for_each_node for_each_node_reverse walk
edited = do
  remove_node 1
  insert_node_before 3 9
  forth ← for_each_node 100 6
  back ← for_each_node_reverse 100 6
  pure (forth, back)

edited_result : value_of (edited three) ≡ some (2 ∷ 9 ∷ 3 ∷ [], 3 ∷ 9 ∷ 2 ∷ [])
unfolding edited get_next get_prev set_next set_prev write
edited_result = refl
