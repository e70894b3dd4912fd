-- ===== src/Stack/Tests.antt =====
-- The functions of stack_simple.c at a stack of two nodes: runs, and the theorems applied.
use freertos_addons.Prelude.{◌≡◌, refl, some, [], ◌∷◌, arith, pos}
use freertos_addons.Machine.{ok, increment, decrement}
use freertos_addons.Memory.{null, Mem, no_memory, write}
use freertos_addons.Memory.Count.{get_count, set_count}
use freertos_addons.Memory.Sample.{fields, value_of}
use freertos_addons.Slist
use freertos_addons.Stack.{init_stack, push_on_stack, pop_off_stack}
use freertos_addons.Stack.Lifo.{IsStack, LeavesStack, init_stack-LeavesStack}
use freertos_addons.Stack.Runs.{push, pop, run, lifo_answers, contents, run-lifo_answers}

-- A stack at 100, its head node at 108, with the nodes 1 and 2, and a node at 9.
abbrev two : Mem
two = record no_memory {
  sl_next = fields ((108, 1) ∷ (1, 2) ∷ (2, null) ∷ (9, 77) ∷ []);
  count = fields ((100, pos 2) ∷ []);
}

abbrev two-IsStack : IsStack two 100 (1 ∷ 2 ∷ [])
two-IsStack = record {
  ne_null = omega arith;
  count = refl;
  chain = record {
    nodes = record { distinct = (refl, (refl, (refl, tt))); ne_null = refl };
    linked = (refl, (refl, (refl, tt)));
  };
}

init_stack_example : LeavesStack two 100 (init_stack 100 two) tt (108 ∷ []) []
init_stack_example = init_stack-LeavesStack two 100 (omega arith) refl refl

run-lifo_answers_example :
    (m' : Mem) × (run 100 (push 9 ∷ pop ∷ pop ∷ push 9 ∷ pop ∷ pop ∷ pop ∷ []) two
      ≡ ok (lifo_answers (push 9 ∷ pop ∷ pop ∷ push 9 ∷ pop ∷ pop ∷ pop ∷ []) (1 ∷ 2 ∷ [])) m')
    × IsStack m' 100 (contents (push 9 ∷ pop ∷ pop ∷ push 9 ∷ pop ∷ pop ∷ pop ∷ []) (1 ∷ 2 ∷ []))
run-lifo_answers_example =
    run-lifo_answers (push 9 ∷ pop ∷ pop ∷ push 9 ∷ pop ∷ pop ∷ pop ∷ []) two 100 (1 ∷ 2 ∷ [])
      two-IsStack
      (omega arith, refl, (77, refl), omega arith, (omega arith, refl, (77, refl), omega arith, tt))

-- A run of the model.
answers_run :
    value_of (run 100 (push 9 ∷ pop ∷ pop ∷ push 9 ∷ pop ∷ pop ∷ pop ∷ []) two)
    ≡ some (9 ∷ 1 ∷ 9 ∷ 2 ∷ null ∷ [])
unfolding run push_on_stack pop_off_stack get_count set_count increment decrement write
    Slist.get_next Slist.set_next Slist.add_node_to_head Slist.insert_node_after
    Slist.remove_node_from_head
answers_run = refl
