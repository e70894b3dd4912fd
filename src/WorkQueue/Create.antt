-- ===== src/WorkQueue/Create.antt =====
-- CreateWorkQueueEx.
use freertos_addons.Prelude.{Option, none, some, ◌==◌, if◌then◌else◌, ℤ}
use freertos_addons.Machine.{ok, Cmd, pure, ◌>>=◌, ◌>>◌}
use freertos_addons.Memory.{Ptr, null, write}
use freertos_addons.Rtos.{Rtos}
use freertos_addons.Queue.{head_of, init_queue}
use freertos_addons.WorkQueue.{Info, Shared, get, update, on_mem, delete, free_work_queue}
use freertos_addons.WorkQueue.Kernel.{TaskCalls}

-- What malloc returns, and what the memory holds then.
pub record Fresh : Type 0 where
  pub address : Ptr
  pub info : Info
  pub count : ℤ
  pub next : Ptr
  pub prev : Ptr

module _ {K : Type 0} where
  abbrev pub with_structure : Fresh → Shared K → Shared K
  with_structure new s = record s {
    structures = write s.structures new.address new.info;
    mem = record s.mem {
      count = write s.mem.count new.address new.count;
      dl_next = write s.mem.dl_next (head_of new.address) new.next;
      dl_prev = write s.mem.dl_prev (head_of new.address) new.prev;
    };
  }

  unfoldable pub malloc : Fresh → Cmd (Shared K) Ptr
  malloc new s = if new.address == null then ok null s else ok new.address (with_structure new s)

module _ (os : Rtos) (tasks : TaskCalls os) where
  -- xSemaphoreCreateBinary, xSemaphoreCreateMutex and xTaskCreate
  unfoldable pub create_binary : Cmd (Shared os.Kernel) Ptr
  create_binary s = let (h, k) = os.create_binary s.kernel in ok h (record s { kernel = k })

  unfoldable pub create_mutex : Cmd (Shared os.Kernel) Ptr
  create_mutex s = let (h, k) = os.create_mutex s.kernel in ok h (record s { kernel = k })

  unfoldable pub create_task : Cmd (Shared os.Kernel) (Option Ptr)
  create_task s = let (o, k) = tasks.create s.kernel in ok o (record s { kernel = k })

  abbrev pub started : (wq : Ptr) → Option Ptr → Cmd (Shared os.Kernel) Ptr
  started wq none = do
    info ← get wq
    delete os info.lock
    info' ← get wq
    delete os info'.event
    free_work_queue wq
    pure null
  started wq (some handle) = do update wq (λ info. record info { worker_thread = handle }); pure wq

  -- CreateWorkQueueEx from the creation of the lock on
  abbrev pub after_event : (wq : Ptr) → Cmd (Shared os.Kernel) Ptr
  after_event wq = do
    lock ← create_mutex
    update wq (λ info. record info { lock = lock })
    if lock == null
        then (do info ← get wq; delete os info.event; free_work_queue wq; pure null)
        else (do
          update wq (λ info. record info { exit_thread = 0 })
          task ← create_task
          started wq task)

  -- CreateWorkQueueEx; the worker stands at its beginning when it returns.
  unfoldable pub create_work_queue_ex : Fresh → Cmd (Shared os.Kernel) Ptr
  create_work_queue_ex new = do
    wq ← malloc new
    if wq == null then pure null else do
      on_mem (init_queue wq)
      event ← create_binary
      update wq (λ info. record info { event = event })
      if event == null then (do free_work_queue wq; pure null) else do after_event wq
