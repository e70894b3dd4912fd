-- ===== src/Queue/Tests.antt =====
-- The functions of queue_simple.c at a queue of two nodes: runs, and the theorems applied.
use freertos_addons.Prelude.{◌≡◌, refl, some, [], ◌∷◌, arith, pos}
use freertos_addons.Machine.{ok, increment, decrement}
use freertos_addons.Memory.{null, Mem, no_memory, write}
use freertos_addons.Memory.Count.{get_count, set_count}
use freertos_addons.Memory.Sample.{fields, value_of}
use freertos_addons.Dlist
use freertos_addons.Queue.{init_queue, enqueue, dequeue}
use freertos_addons.Queue.Fifo.{IsQueue, LeavesQueue, init_queue-LeavesQueue}
use freertos_addons.Queue.Runs.{IsFifo, put, get, run, fifo_answers, contents, run-fifo_answers}

-- A queue at 100, its head node at 108, with the nodes 1 and then 2 put in, and a node at 9.
abbrev two : Mem
two = record no_memory {
  dl_next = fields ((108, 2) ∷ (2, 1) ∷ (1, 108) ∷ (9, 77) ∷ []);
  dl_prev = fields ((108, 1) ∷ (2, 108) ∷ (1, 2) ∷ (9, 77) ∷ []);
  count = fields ((100, pos 2) ∷ []);
}

abbrev two-IsQueue : IsQueue two 100 (2 ∷ 1 ∷ [])
two-IsQueue = record {
  ne_null = omega arith;
  count = refl;
  ring = record {
    nodes = record { distinct = (refl, (refl, (refl, tt))); ne_null = refl };
    forward = (refl, (refl, (refl, tt)));
    backward = (refl, (refl, (refl, tt)));
  };
}

init_queue_example : LeavesQueue two 100 (init_queue 100 two) tt (108 ∷ []) []
init_queue_example = init_queue-LeavesQueue two 100 (omega arith) refl refl refl

run-fifo_answers_example :
    (m' : Mem) × (run 100 (put 9 ∷ get ∷ get ∷ get ∷ get ∷ []) two
      ≡ ok (fifo_answers (put 9 ∷ get ∷ get ∷ get ∷ get ∷ []) (1 ∷ 2 ∷ [])) m')
    × IsFifo m' 100 (contents (put 9 ∷ get ∷ get ∷ get ∷ get ∷ []) (1 ∷ 2 ∷ []))
run-fifo_answers_example =
    run-fifo_answers (put 9 ∷ get ∷ get ∷ get ∷ get ∷ []) two 100 (1 ∷ 2 ∷ []) two-IsQueue
      (omega arith, refl, (77, 77, refl, refl), omega arith, tt)

-- A run of the model.
answers_run :
    value_of (run 100 (put 9 ∷ get ∷ get ∷ get ∷ get ∷ []) two) ≡ some (1 ∷ 2 ∷ 9 ∷ null ∷ [])
unfolding run enqueue dequeue get_count set_count increment decrement write Dlist.get_next
    Dlist.get_prev Dlist.set_next Dlist.set_prev Dlist.add_node_to_head Dlist.insert_node_after
    Dlist.is_list_empty Dlist.remove_node Dlist.remove_node_from_tail
answers_run = refl
