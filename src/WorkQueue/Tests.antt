-- ===== src/WorkQueue/Tests.antt =====
-- A work queue at 1000 with its event 5 and its lock 6, a work item at 2000: runs, and the theorems
-- applied.
use native.Mathlib.Decide.{ℕ_discrete}
use freertos_addons.Prelude.{
  ◌+◌, ◌*◌, ◌≤◌, ◌≡◌, ◌≢◌, refl, true, false, none, some, List, [], ◌∷◌, ◌++◌, arith, ◌==◌,
  if◌then◌else◌, pos, ap,
}
use freertos_addons.Machine.{ok, fault, ◌>>◌}
use freertos_addons.Memory.{Ptr, no_memory}
use freertos_addons.Memory.Sample.{fields}
use freertos_addons.RtosSample.{sample_rtos, sample_rtos-IsRtos, Semaphores}
use freertos_addons.Tasks.{total}
use freertos_addons.Queue.Runs.{IsFifo}
use freertos_addons.WorkQueue.{
  Item, Info, Shared, await_event, gone, ClientPc, idle, lock_queue, add_item, lock_destroy, Call,
  worker, client, work, proceed, get, take, with_item,
}
use freertos_addons.WorkQueue.Kernel.{TaskCalls, IsTaskCalls}
use freertos_addons.WorkQueue.Places.{holds_lock, worker_holds, contents_of, in_hand}
use freertos_addons.WorkQueue.Invariant.{owned, Owned}
use freertos_addons.WorkQueue.ClientSteps.{Mallocs}
use freertos_addons.WorkQueue.Reach.{System, Reaches, start, then_step, client_step, IsNew}
use freertos_addons.WorkQueue.System.{
  called_in_order, all_called, lock_excludes, items_owned, faultless,
}
use freertos_addons.WorkQueue.Rounds.{served}
use freertos_addons.WorkQueue.Create
use freertos_addons.WorkQueue.Create.{Fresh}
use freertos_addons.WorkQueue.Created.{Created, Returns, create_work_queue_ex-Created}
use freertos_addons.WorkQueue.Destroy.{destroy_work_queue-Finished}

-- Tasks that are created and deleted without a trace in the semaphores.
abbrev sample_tasks : TaskCalls sample_rtos
sample_tasks = record { create = λ k. (some 70, k); delete = λ h k. k }

sample_tasks-IsTaskCalls : IsTaskCalls sample_rtos sample_tasks
sample_tasks-IsTaskCalls = record {
  create_live = λ k a. refl;
  create_available = λ k a. refl;
  delete_live = λ h k a. refl;
}

abbrev sample_info : Info
sample_info = record { event = 5; lock = 6; worker_thread = 70; exit_thread = 0 }

abbrev sample_item : Item
sample_item = record { function = 400; user_data = 9 }

abbrev only : Ptr → Semaphores
only h = record { free = λ a. a == h; gone = λ a. false; next = 7 }

abbrev empty_queue : Shared Semaphores
empty_queue = record {
  mem = record no_memory {
    dl_next = fields ((1008, 1008) ∷ []);
    dl_prev = fields ((1008, 1008) ∷ []);
    count = fields ((1000, pos 0) ∷ []);
  };
  kernel = only 6;
  items = λ a. none;
  structures = fields ((1000, sample_info) ∷ []);
  queued = [];
  calls = [];
}

abbrev empty_queue-IsNew : IsNew sample_rtos 1000 sample_info empty_queue
empty_queue-IsNew = record {
  lasts = record { structure = refl; stays = refl; apart = omega arith };
  queue = record {
    ne_null = omega arith;
    count = refl;
    ring = record {
      nodes = record { distinct = (refl, tt); ne_null = refl };
      forward = (refl, tt);
      backward = (refl, tt);
    };
  };
  unlocked = refl;
  no_items = λ a. refl;
  nothing_yet = refl;
}

abbrev sample_call : Call
sample_call = record { item = sample_item; new = 2000; junk = 1 }

abbrev no_call : Call
no_call = record { item = sample_item; new = 0; junk = 0 }

abbrev before_add : Shared Semaphores
before_add = record (with_item sample_call empty_queue) {
  kernel = record { free = λ a. if a == 6 then false else a == 6; gone = λ a. false; next = 7 };
}

-- A task that has obtained a work item and the lock.
abbrev at_add : System Semaphores
at_add = record {
  shared = before_add;
  place = await_event;
  clients = add_item 2000 sample_item ∷ [];
}

sample_run :
    Reaches sample_rtos sample_tasks 1000
      (record { shared = empty_queue; place = await_event; clients = idle ∷ [] })
      at_add
unfolding client get take
sample_run =
    then_step
      (then_step start (
        client_step sample_call [] [] idle (lock_queue 2000 sample_item) await_event empty_queue
          (with_item sample_call empty_queue) (λ ne. (refl, refl)) refl))
      (client_step no_call [] [] (lock_queue 2000 sample_item) (add_item 2000 sample_item)
        await_event (with_item sample_call empty_queue) before_add (λ ne. absurd (ne refl)) refl)

called_in_order_example :
    (q : List Ptr) × IsFifo before_add.mem 1000 q
    × (before_add.queued
        ≡ before_add.calls
          ++ (in_hand before_add.items await_event ++ contents_of before_add.items q))
called_in_order_example =
    called_in_order sample_rtos sample_rtos-IsRtos sample_tasks 1000 sample_info 1 empty_queue
      at_add empty_queue-IsNew sample_run

all_called_example : before_add.queued ≡ before_add.calls
unfolding total
all_called_example =
    all_called sample_rtos sample_rtos-IsRtos sample_tasks 1000 sample_info 1 empty_queue at_add
      empty_queue-IsNew sample_run refl refl refl

lock_excludes_example :
    (worker_holds await_event + total holds_lock (add_item 2000 sample_item ∷ []) ≤ 1)
    × (sample_rtos.available 6 before_add.kernel ≡ true
        → worker_holds await_event + total holds_lock (add_item 2000 sample_item ∷ []) ≡ 0)
lock_excludes_example =
    lock_excludes sample_rtos sample_rtos-IsRtos sample_tasks 1000 sample_info 1 empty_queue at_add
      empty_queue-IsNew sample_run

items_owned_example :
    (q : List Ptr) × IsFifo before_add.mem 1000 q
    × ((a : Ptr) → owned a await_event (add_item 2000 sample_item ∷ []) q ≤ 1)
    × ((a : Ptr)
        → 1 ≤ owned a await_event (add_item 2000 sample_item ∷ []) q
        → before_add.items a ≢ none)
    × ((a : Ptr)
        → before_add.items a ≢ none
        → 1 ≤ owned a await_event (add_item 2000 sample_item ∷ []) q)
items_owned_example =
    items_owned sample_rtos sample_rtos-IsRtos sample_tasks 1000 sample_info 1 empty_queue at_add
      empty_queue-IsNew sample_run

faultless_example :
    (worker sample_rtos sample_tasks 1000 await_event before_add ≢ fault)
    × ((c : Call) (before after : List ClientPc) (p : ClientPc)
        → at_add.clients ≡ before ++ p ∷ after
        → Mallocs before_add c
        → client sample_rtos 1000 c p before_add ≢ fault)
faultless_example =
    faultless sample_rtos sample_rtos-IsRtos sample_tasks 1000 sample_info 1 empty_queue at_add
      empty_queue-IsNew sample_run 0 refl (omega arith)

-- One work item is in the queue; the semaphores of `k` are available.
abbrev one_item : Semaphores → Shared Semaphores
one_item k = record {
  mem = record no_memory {
    dl_next = fields ((1008, 2000) ∷ (2000, 1008) ∷ []);
    dl_prev = fields ((1008, 2000) ∷ (2000, 1008) ∷ []);
    count = fields ((1000, pos 1) ∷ []);
  };
  kernel = k;
  items = fields ((2000, sample_item) ∷ []);
  structures = fields ((1000, sample_info) ∷ []);
  queued = sample_item ∷ [];
  calls = [];
}

one_item-Owned : (k : Semaphores) → Owned 1000 (one_item k) await_event [] (2000 ∷ [])
unfolding total
one_item-Owned k = record {
  queue = record {
    ne_null = omega arith;
    count = refl;
    ring = record {
      nodes = record { distinct = (refl, (refl, tt)); ne_null = refl };
      forward = (refl, (refl, tt));
      backward = (refl, (refl, tt));
    };
  };
  bounded = omega arith;
  single = λ a. ground arith;
  allocated = λ a le. elim (ℕ_discrete a 2000) [
    | yes e ↦ record {
      ne_null = omega arith;
      item = sample_item;
      there = ap (one_item k).items e;
      mapped = (1008, 1008, ap (one_item k).mem.dl_next e, ap (one_item k).mem.dl_prev e);
    }
    | no n ↦ absurd (n (ground arith))
  ];
  complete =
      λ a ne. elim (ℕ_discrete a 2000) [ yes e ↦ ground arith | no n ↦ absurd (ne (ground arith)) ];
  head_free = refl;
  history = refl;
  clients = tt;
}

abbrev both : Semaphores
both = record { free = λ a. true; gone = λ a. false; next = 7 }

served_example :
    (s' : Shared Semaphores) × (work sample_rtos sample_tasks
        (6 * 1 + 5)
        1000
        await_event
        (one_item both)
      ≡ ok await_event s')
    × (s'.calls ≡ sample_item ∷ [])
    × Owned 1000 s' await_event [] []
    × (sample_rtos.available 6 s'.kernel ≡ true)
served_example =
    served sample_rtos sample_rtos-IsRtos sample_tasks 1000 sample_info (one_item both) (2000 ∷ [])
      (one_item-Owned both) refl refl (omega arith) refl refl

destroy_work_queue_example :
    (s' : Shared Semaphores) × ((proceed sample_rtos 4 1000 no_call lock_destroy
          >> work sample_rtos sample_tasks (6 * 1 + 13) 1000 await_event)
        (one_item (only 6))
      ≡ ok gone s')
    × (s'.calls ≡ sample_item ∷ [])
    × ((a : Ptr) → s'.items a ≡ none)
    × (s'.structures 1000 ≡ none)
    × (sample_rtos.live 6 s'.kernel ≡ false)
    × (sample_rtos.live 5 s'.kernel ≡ false)
destroy_work_queue_example =
    destroy_work_queue-Finished sample_rtos sample_rtos-IsRtos sample_tasks sample_tasks-IsTaskCalls
      1000 sample_info no_call (one_item (only 6)) (2000 ∷ []) (one_item-Owned (only 6)) refl refl
      (omega arith)

abbrev nothing : Shared Semaphores
nothing = record empty_queue { mem = no_memory; structures = λ a. none }

abbrev fresh : Fresh
fresh = record { address = 1000; info = sample_info; count = pos 3; next = 1; prev = 1 }

create_work_queue_ex_example :
    Returns
      (Created sample_rtos fresh nothing)
      (Create.create_work_queue_ex sample_rtos sample_tasks fresh nothing)
create_work_queue_ex_example =
    create_work_queue_ex-Created sample_rtos sample_rtos-IsRtos sample_tasks
      sample_tasks-IsTaskCalls fresh nothing refl (λ a. refl) refl
