-- ===== src/WorkQueue.antt =====
-- c/Source/workqueue.c with INCLUDE_vTaskDelete == 1: tasks that queue work items, and the worker
-- that runs them. A task is at a place of its function; a step is one call or one access to what
-- the tasks share. The kernel is a parameter; what malloc returns is an argument.
pub mod Kernel
pub mod Create
pub mod Created
pub mod Places
pub mod Frames
pub mod Invariant
pub mod Takes
pub mod WorkerSteps
pub mod Knowledge
pub mod Obtain
pub mod ClientSteps
pub mod Reach
pub mod System
pub mod Rounds
pub mod Destroy
mod Tests
use freertos_addons.Prelude.{
  ℕ, zero, suc, ◌+◌, Bool, true, false, Option, none, some, List, [], ◌∷◌, ◌++◌, ◌==◌,
  if◌then◌else◌, ℤ, pos,
}
use freertos_addons.Machine.{
  Run, ok, fault, blocked, out_of_fuel, Cmd, pure, exhausted, ◌>>=◌, ◌>>◌,
}
use freertos_addons.Memory.{Ptr, null, Field, Mem, write}
use freertos_addons.Rtos.{Rtos}
use freertos_addons.Queue.{head_of, init_queue, enqueue, dequeue, is_queue_empty}
use freertos_addons.WorkQueue.Kernel.{TaskCalls}

-- The fields of a `pvtWorkItem_t` beside its `Node`, which stands first.
pub record Item : Type 0 where
  pub function : Ptr
  pub user_data : Ptr

-- The fields of a `pvtWorkQueue_t` beside its `Queue`, which stands first.
pub record Info : Type 0 where
  pub event : Ptr
  pub lock : Ptr
  pub worker_thread : Ptr
  pub exit_thread : ℕ

pub record Shared (K : Type 0) : Type 0 where
  pub mem : Mem
  pub kernel : K
  pub items : Field Item
  pub structures : Field Info
  -- what QueueWorkItem has put into the queue, and the functions that the worker has called
  pub queued : List Item
  pub calls : List Item

-- The places of WorkerThread.
pub data WorkerPc : Type 0 where
  await_event : WorkerPc
  take_lock : WorkerPc
  test_empty : WorkerPc
  take_item : WorkerPc
  release_lock : (node : Ptr) → WorkerPc
  call_function : (node : Ptr) → WorkerPc
  free_item : (node : Ptr) → WorkerPc
  retake_lock : WorkerPc
  read_exit : WorkerPc
  end_round : (exit_thread : ℕ) → WorkerPc
  -- behind the loop
  lock_cleanup : WorkerPc
  test_drained : WorkerPc
  drain_item : WorkerPc
  free_drained : (node : Ptr) → WorkerPc
  unlock_cleanup : WorkerPc
  delete_lock : WorkerPc
  delete_event : WorkerPc
  read_handle : WorkerPc
  free_structure : (handle : Ptr) → WorkerPc
  delete_task : (handle : Ptr) → WorkerPc
  gone : WorkerPc

-- The places of QueueWorkItem and DestroyWorkQueue.
pub data ClientPc : Type 0 where
  idle : ClientPc
  lock_queue : (node : Ptr) → (item : Item) → ClientPc
  add_item : (node : Ptr) → (item : Item) → ClientPc
  signal_worker : ClientPc
  unlock_queue : ClientPc
  -- QueueWorkItem has returned, pdPASS or not
  answered : Bool → ClientPc
  lock_destroy : ClientPc
  set_exit : ClientPc
  signal_exit : ClientPc
  unlock_destroy : ClientPc

-- A call of QueueWorkItem: the arguments, what malloc returns, and what `Node` holds then.
pub record Call : Type 0 where
  pub item : Item
  pub new : Ptr
  pub junk : Ptr

-- The field without its entry at `p`.
abbrev pub without : {A : Type 0} → Field A → Ptr → Field A
without f p a = if a == p then none else f a

module _ {K : Type 0} where
  abbrev pub lift_run : {A : Type 0} → Shared K → Run Mem A → Run (Shared K) A
  lift_run s (ok a m) = ok a (record s { mem = m })
  lift_run s fault = fault
  lift_run s blocked = blocked
  lift_run s out_of_fuel = out_of_fuel

  abbrev pub on_mem : {A : Type 0} → Cmd Mem A → Cmd (Shared K) A
  on_mem c s = lift_run s (c s.mem)

  abbrev pub found : {A : Type 0} → Shared K → Option A → Run (Shared K) A
  found s none = fault
  found s (some a) = ok a s

  -- `WorkQueue->…` and `WorkItem->…`
  unfoldable pub get : Ptr → Cmd (Shared K) Info
  get wq s = found s (s.structures wq)

  unfoldable pub get_item : Ptr → Cmd (Shared K) Item
  get_item node s = found s (s.items node)

  unfoldable pub update : Ptr → (Info → Info) → Cmd (Shared K) (Unit {0})
  update wq f =
      get wq >>= λ info s. ok tt (record s { structures = write s.structures wq (f info) })

  -- malloc of a work item, and the assignments to its two fields
  abbrev pub with_item : Call → Shared K → Shared K
  with_item c s = record s {
    items = write s.items c.new c.item;
    mem = record s.mem {
      dl_next = write s.mem.dl_next c.new c.junk;
      dl_prev = write s.mem.dl_prev c.new c.junk;
    };
  }

  abbrev pub without_item : Ptr → Shared K → Shared K
  without_item node s = record s {
    items = without s.items node;
    mem = record s.mem {
      dl_next = without s.mem.dl_next node;
      dl_prev = without s.mem.dl_prev node;
    };
  }

  -- free(WorkItem)
  unfoldable pub free_work_item : Ptr → Cmd (Shared K) (Unit {0})
  free_work_item node = get_item node >>= λ _ s. ok tt (without_item node s)

  abbrev pub without_structure : Ptr → Shared K → Shared K
  without_structure wq s = record s {
    structures = without s.structures wq;
    mem = record s.mem {
      count = without s.mem.count wq;
      dl_next = without s.mem.dl_next (head_of wq);
      dl_prev = without s.mem.dl_prev (head_of wq);
    };
  }

  -- free(WorkQueue)
  unfoldable pub free_work_queue : Ptr → Cmd (Shared K) (Unit {0})
  free_work_queue wq = get wq >>= λ _ s. ok tt (without_structure wq s)

module _ (os : Rtos) where
  abbrev pub taken : Shared os.Kernel → Option os.Kernel → Run (Shared os.Kernel) (Unit {0})
  taken s none = blocked
  taken s (some k) = ok tt (record s { kernel = k })

  -- xSemaphoreTake(…, portMAX_DELAY), xSemaphoreGive and vSemaphoreDelete
  unfoldable pub take : Ptr → Cmd (Shared os.Kernel) (Unit {0})
  take h s = taken s (os.take h s.kernel)

  unfoldable pub give : Ptr → Cmd (Shared os.Kernel) (Unit {0})
  give h s = ok tt (record s { kernel = os.give h s.kernel })

  unfoldable pub delete : Ptr → Cmd (Shared os.Kernel) (Unit {0})
  delete h s = ok tt (record s { kernel = os.delete h s.kernel })

  -- A step of WorkerThread.
  unfoldable pub worker : TaskCalls os → (wq : Ptr) → WorkerPc → Cmd (Shared os.Kernel) WorkerPc
  worker tasks wq await_event = do info ← get wq; take info.event; pure take_lock
  worker tasks wq take_lock = do info ← get wq; take info.lock; pure test_empty
  worker tasks wq test_empty = do
    empty ← on_mem (is_queue_empty wq)
    pure (if empty then read_exit else take_item)
  worker tasks wq take_item = do node ← on_mem (dequeue wq); pure (release_lock node)
  worker tasks wq (release_lock node) = do info ← get wq; give info.lock; pure (call_function node)
  worker tasks wq (call_function node) = do
    item ← get_item node
    λ s. ok (free_item node) (record s { calls = s.calls ++ item ∷ [] })
  worker tasks wq (free_item node) = do free_work_item node; pure retake_lock
  worker tasks wq retake_lock = do info ← get wq; take info.lock; pure test_empty
  worker tasks wq read_exit = do info ← get wq; pure (end_round info.exit_thread)
  worker tasks wq (end_round exit_thread) = do
    info ← get wq
    give info.lock
    pure (if exit_thread == 0 then await_event else lock_cleanup)
  worker tasks wq lock_cleanup = do info ← get wq; take info.lock; pure test_drained
  worker tasks wq test_drained = do
    empty ← on_mem (is_queue_empty wq)
    pure (if empty then unlock_cleanup else drain_item)
  worker tasks wq drain_item = do node ← on_mem (dequeue wq); pure (free_drained node)
  worker tasks wq (free_drained node) = do free_work_item node; pure test_drained
  worker tasks wq unlock_cleanup = do info ← get wq; give info.lock; pure delete_lock
  worker tasks wq delete_lock = do info ← get wq; delete info.lock; pure delete_event
  worker tasks wq delete_event = do info ← get wq; delete info.event; pure read_handle
  worker tasks wq read_handle = do info ← get wq; pure (free_structure info.worker_thread)
  worker tasks wq (free_structure handle) = do free_work_queue wq; pure (delete_task handle)
  worker tasks wq (delete_task handle) =
      λ s. ok gone (record s { kernel = tasks.delete handle s.kernel })
  worker tasks wq gone = λ s. blocked

  -- A step of a task that calls QueueWorkItem or DestroyWorkQueue.
  unfoldable pub client : (wq : Ptr) → Call → ClientPc → Cmd (Shared os.Kernel) ClientPc
  client wq c idle = λ s.
      (if c.new == null
        then ok (answered false) s
        else ok (lock_queue c.new c.item) (with_item c s))
  client wq c (lock_queue node item) = do info ← get wq; take info.lock; pure (add_item node item)
  client wq c (add_item node item) = do
    on_mem (enqueue wq node)
    λ s. ok signal_worker (record s { queued = s.queued ++ item ∷ [] })
  client wq c signal_worker = do info ← get wq; give info.event; pure unlock_queue
  client wq c unlock_queue = do info ← get wq; give info.lock; pure (answered true)
  client wq c (answered pass) = pure idle
  client wq c lock_destroy = do info ← get wq; take info.lock; pure set_exit
  client wq c set_exit = do update wq (λ info. record info { exit_thread = 1 }); pure signal_exit
  client wq c signal_exit = do info ← get wq; give info.event; pure unlock_destroy
  client wq c unlock_destroy = do info ← get wq; give info.lock; pure idle

  -- `n` steps of the worker alone.
  unfoldable pub work :
      TaskCalls os → (n : ℕ) → (wq : Ptr) → WorkerPc → Cmd (Shared os.Kernel) WorkerPc
  work tasks zero wq pc = pure pc
  work tasks (suc n) wq pc = do next ← worker tasks wq pc; work tasks n wq next

  -- `n` steps of one of the other tasks alone.
  unfoldable pub proceed : (n : ℕ) → (wq : Ptr) → Call → ClientPc → Cmd (Shared os.Kernel) ClientPc
  proceed zero wq c pc = pure pc
  proceed (suc n) wq c pc = do next ← client wq c pc; proceed n wq c next
