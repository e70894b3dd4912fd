-- ===== src/WorkQueue/Reach.antt =====
-- A work queue with one worker and any number of tasks that call QueueWorkItem, in any order of
-- their steps.
use freertos_addons.Prelude.{
  ℕ, zero, suc, ◌≡◌, refl, true, some, none, List, [], ◌∷◌, ◌++◌, arith, int_max, Option, ℤ, pos,
  ◌<◌,
}
use freertos_addons.Machine.{ok}
use freertos_addons.Memory.{Ptr}
use freertos_addons.Rtos.{Rtos}
use freertos_addons.Tasks.{total, All}
use freertos_addons.Queue.Runs.{IsFifo}
use freertos_addons.WorkQueue.{
  Info, Shared, WorkerPc, ClientPc, idle, lock_queue, add_item, signal_worker, unlock_queue,
  answered, lock_destroy, set_exit, signal_exit, unlock_destroy, Call, worker, client,
}
use freertos_addons.WorkQueue.Kernel.{TaskCalls}
use freertos_addons.WorkQueue.Places.{holds_lock, owns, signals, ClientKnows}
use freertos_addons.WorkQueue.Invariant.{Lasts, Inv}
use freertos_addons.WorkQueue.ClientSteps.{Mallocs, Overflows}

pub record System (K : Type 0) : Type 0 where
  pub shared : Shared K
  pub place : WorkerPc
  pub clients : List ClientPc

pub data Step (os : Rtos) (tasks : TaskCalls os) (wq : Ptr)
    : System os.Kernel → System os.Kernel → Type 0 where
  worker_step :
      (y : System os.Kernel) (w : WorkerPc) (s : Shared os.Kernel)
      → worker os tasks wq y.place y.shared ≡ ok w s
      → Step os tasks wq y (record { shared = s; place = w; clients = y.clients })
  client_step :
      (c : Call) (before after : List ClientPc) (p q : ClientPc) (w : WorkerPc)
      (s s' : Shared os.Kernel)
      → Mallocs s c
      → client os wq c p s ≡ ok q s'
      → Step os tasks wq
          (record { shared = s; place = w; clients = before ++ p ∷ after })
          (record { shared = s'; place = w; clients = before ++ q ∷ after })

pub data Reaches (os : Rtos) (tasks : TaskCalls os) (wq : Ptr) (y : System os.Kernel)
    : System os.Kernel → Type 0 where
  start : Reaches os tasks wq y y
  then_step :
      {z u : System os.Kernel}
      → Reaches os tasks wq y z
      → Step os tasks wq z u
      → Reaches os tasks wq y u

-- The queue as CreateWorkQueueEx leaves it.
pub record IsNew (os : Rtos) (wq : Ptr) (info : Info) (s : Shared os.Kernel) : Type 0 where
  pub lasts : Lasts wq info s
  pub queue : IsFifo s.mem wq []
  pub unlocked : os.available info.lock s.kernel ≡ true
  pub no_items : (a : Ptr) → s.items a ≡ none
  pub nothing_yet : s.queued ≡ s.calls

-- `n` tasks outside.
abbrev pub outsiders : ℕ → List ClientPc
outsiders zero = []
outsiders (suc n) = idle ∷ outsiders n

pub total-outsiders :
    (weight : ClientPc → ℕ) (n : ℕ) → weight idle ≡ 0 → total weight (outsiders n) ≡ 0
unfolding total
total-outsiders weight zero e = refl
total-outsiders weight (suc n) e = omega (arith, total-outsiders weight n e)

pub outsiders_know : (P : ClientPc → Type 0) (n : ℕ) → P idle → All P (outsiders n)
outsiders_know P zero h = tt
outsiders_know P (suc n) h = (h, outsiders_know P n h)

-- The invariant counts the tasks, and does not care in which order they stand.
pub Inv-reorder :
    (os : Rtos) (wq : Ptr) (info : Info) (s : Shared os.Kernel) (w : WorkerPc)
    (cs ds : List ClientPc)
    → ((weight : ClientPc → ℕ) → total weight ds ≡ total weight cs)
    → All (ClientKnows s.items) ds
    → Inv os wq info s w cs
    → Inv os wq info s w ds
Inv-reorder os wq info s w cs ds even knows v = record {
  q = v.q;
  owned = record {
    queue = v.owned.queue;
    bounded = v.owned.bounded;
    single = λ a. omega (arith, even (owns a), v.owned.single a);
    allocated = λ a le. v.owned.allocated a (omega (arith, even (owns a)));
    complete = λ a ne. omega (arith, even (owns a), v.owned.complete a ne);
    head_free = v.owned.head_free;
    history = v.owned.history;
    clients = knows;
  };
  lasts = v.lasts;
  lock = omega (arith, v.lock, even holds_lock);
  worker_knows = rw (even signals) v.worker_knows;
}

pub same_count : {o : Option ℤ} {m n : ℕ} → o ≡ some (pos m) → o ≡ some (pos n) → m ≡ n
same_count e e' = cc

pub no_overflow : (p : ClientPc) (n m : ℕ) → n ≡ m → m < int_max → Overflows p n → ⊥
no_overflow idle n m e lt h = h
no_overflow (lock_queue node item) n m e lt h = h
no_overflow (add_item node item) n m e lt h = absurd (omega arith)
no_overflow signal_worker n m e lt h = h
no_overflow unlock_queue n m e lt h = h
no_overflow (answered pass) n m e lt h = h
no_overflow lock_destroy n m e lt h = h
no_overflow set_exit n m e lt h = h
no_overflow signal_exit n m e lt h = h
no_overflow unlock_destroy n m e lt h = h
