-- ===== src/Slist/Tests.antt =====
-- The functions of slist.c at a list of three nodes: runs, and the theorems applied.
use freertos_addons.Prelude.{◌≡◌, refl, some, List, [], ◌∷◌, arith}
use freertos_addons.Machine.{Cmd, ok, pure, ◌>>=◌, ◌>>◌}
use freertos_addons.Memory.{Ptr, null, Mem, no_memory, write}
use freertos_addons.Memory.Sample.{fields, value_of}
use freertos_addons.Slist.{
  get_next, set_next, insert_node_after, add_node_to_tail, insert_node_before, remove_node,
  remove_node_from_tail, for_each_node, walk,
}
use freertos_addons.Slist.Chain.{IsChain, IsFree, Leaves}
use freertos_addons.Slist.Insert.{insert_node_before-Leaves, insert_node_before_miss}

-- A head at 100 with the nodes 1, 2 and 3, and a node at 9 in no list.
abbrev three : Mem
three = record no_memory {
  sl_next = fields ((100, 1) ∷ (1, 2) ∷ (2, 3) ∷ (3, null) ∷ (9, 77) ∷ []);
}

abbrev three-IsChain : IsChain three (100 ∷ 1 ∷ 2 ∷ 3 ∷ [])
three-IsChain = record {
  nodes = record { distinct = (refl, (refl, (refl, (refl, tt)))); ne_null = refl };
  linked = (refl, (refl, (refl, (refl, tt))));
}

abbrev nine-IsFree : IsFree three (100 ∷ 1 ∷ 2 ∷ 3 ∷ []) 9
nine-IsFree = record { ne_null = omega arith; outside = refl; old = 77; mapped = refl }

insert_node_before_example :
    Leaves three (insert_node_before 4 100 2 9 three) tt (1 ∷ 9 ∷ []) (100 ∷ 1 ∷ 9 ∷ 2 ∷ 3 ∷ [])
insert_node_before_example =
    insert_node_before-Leaves three 4 100 (1 ∷ []) (3 ∷ []) 2 9 three-IsChain nine-IsFree
      (omega arith)

insert_node_before_miss_example : insert_node_before 4 100 8 9 three ≡ ok tt three
insert_node_before_miss_example =
    insert_node_before_miss three 4 100 (1 ∷ 2 ∷ 3 ∷ []) 8 9 three-IsChain refl (omega arith)

-- A run of the model: three insertions and a removal, read back by the walk.
edited : Cmd Mem (List Ptr)
unfolding insert_node_after insert_node_before add_node_to_tail remove_node remove_node_from_tail
    for_each_node walk
edited = do
  insert_node_before 4 100 2 9
  remove_node 6 100 1
  last ← remove_node_from_tail 6 100
  rest ← for_each_node 100 6
  pure (last ∷ rest)

edited_result : value_of (edited three) ≡ some (3 ∷ 9 ∷ 2 ∷ [])
unfolding edited get_next set_next write
edited_result = refl
