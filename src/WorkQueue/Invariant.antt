-- ===== src/WorkQueue/Invariant.antt =====
-- The invariant of a work queue that nobody destroys, and the steps that change only the kernel.
use mathlib.Core.Path.{subst}
use mathlib.Core.List.{reverse}
use freertos_addons.Prelude.{
  ℕ, ◌+◌, ◌≤◌, ◌≡◌, ◌≢◌, refl, true, false, some, none, Option, List, ◌++◌, arith, length, times,
  int_max, ◌∙◌, ap, sym,
}
use freertos_addons.Machine.{ok, pure, ◌>>◌, and_then, Cmd}
use freertos_addons.Memory.{Ptr, null, Field, Mem}
use freertos_addons.Rtos.{Rtos, IsRtos, SameBut}
use freertos_addons.Tasks.{total, up, Outcome, All}
use freertos_addons.Queue.{head_of}
use freertos_addons.Queue.Runs.{IsFifo, IsMapped}
use freertos_addons.WorkQueue.{
  Item, Info, Shared, WorkerPc, await_event, take_item, read_exit, end_round, lock_cleanup,
  test_drained, drain_item, free_drained, unlock_cleanup, delete_lock, delete_event, read_handle,
  free_structure, delete_task, gone, ClientPc, get, take, taken,
}
use freertos_addons.WorkQueue.Places.{
  holds_lock, worker_holds, owns, worker_owns, signals, contents_of, in_hand, ClientKnows,
}

-- How often the work item `a` is in hands or in the queue `q`.
abbrev pub owned : Ptr → WorkerPc → List ClientPc → List Ptr → ℕ
owned a w cs q = worker_owns a w + (total (owns a) cs + times a q)

-- A work item that is allocated.
pub record IsItem (mem : Mem) (items : Field Item) (a : Ptr) : Type 0 where
  pub ne_null : a ≢ null
  pub item : Item
  pub there : items a ≡ some item
  pub mapped : IsMapped mem a

-- The memory: the queue holds the nodes `q`, oldest first; every work item in hands or in the queue
-- is allocated and is there once; no other work item is allocated; and what has been queued has been called, is about to be called,
-- or is in the queue, in this order.
pub record Owned {K : Type 0} (wq : Ptr) (s : Shared K) (w : WorkerPc) (cs : List ClientPc)
    (q : List Ptr) : Type 0 where
  pub queue : IsFifo s.mem wq q
  pub bounded : length (reverse q) ≤ int_max
  pub single : (a : Ptr) → owned a w cs q ≤ 1
  pub allocated : (a : Ptr) → 1 ≤ owned a w cs q → IsItem s.mem s.items a
  pub complete : (a : Ptr) → s.items a ≢ none → 1 ≤ owned a w cs q
  pub head_free : s.items (head_of wq) ≡ none
  pub history : s.queued ≡ s.calls ++ (in_hand s.items w ++ contents_of s.items q)
  pub clients : All (ClientKnows s.items) cs

-- What the worker knows at its place. Where it waits, work is signalled or about to be.
abbrev pub WorkerKnows : (available signalling waiting : ℕ) → WorkerPc → Type 0
WorkerKnows available signalling waiting await_event = 1 ≤ waiting → 1 ≤ available + signalling
WorkerKnows available signalling waiting take_item = 1 ≤ waiting
WorkerKnows available signalling waiting read_exit = waiting ≡ 0
WorkerKnows available signalling waiting (end_round e) = (waiting ≡ 0) × (e ≡ 0)
WorkerKnows available signalling waiting lock_cleanup = ⊥
WorkerKnows available signalling waiting test_drained = ⊥
WorkerKnows available signalling waiting drain_item = ⊥
WorkerKnows available signalling waiting (free_drained node) = ⊥
WorkerKnows available signalling waiting unlock_cleanup = ⊥
WorkerKnows available signalling waiting delete_lock = ⊥
WorkerKnows available signalling waiting delete_event = ⊥
WorkerKnows available signalling waiting read_handle = ⊥
WorkerKnows available signalling waiting (free_structure handle) = ⊥
WorkerKnows available signalling waiting (delete_task handle) = ⊥
WorkerKnows available signalling waiting gone = ⊥
WorkerKnows available signalling waiting w = Unit

-- The structure: it is there, and nobody has asked the worker to exit.
pub record Lasts {K : Type 0} (wq : Ptr) (info : Info) (s : Shared K) : Type 0 where
  pub structure : s.structures wq ≡ some info
  pub stays : info.exit_thread ≡ 0
  pub apart : info.event ≢ info.lock

pub record Inv (os : Rtos) (wq : Ptr) (info : Info) (s : Shared os.Kernel) (w : WorkerPc)
    (cs : List ClientPc) : Type 0 where
  pub q : List Ptr
  pub owned : Owned wq s w cs q
  pub lasts : Lasts wq info s
  pub lock : up (os.available info.lock s.kernel) + (worker_holds w + total holds_lock cs) ≡ 1
  pub worker_knows :
      WorkerKnows (up (os.available info.event s.kernel)) (total signals cs) (length q) w

pub get_lem :
    {K : Type 0} (wq : Ptr) (s : Shared K) {info : Info}
    → s.structures wq ≡ some info
    → get wq s ≡ ok info s
unfolding get
get_lem wq s at = rw at refl

-- What follows a read of the structure.
pub get-Outcome :
    {K A : Type 0} (P : A → Shared K → Type 0) (F : Type 0) (wq : Ptr) (s : Shared K) {info : Info}
    (f : Info → Cmd (Shared K) A)
    → s.structures wq ≡ some info
    → Outcome P F (f info s)
    → Outcome P F (and_then (get wq s) f)
get-Outcome P F wq s f at h = rw (get_lem wq s at) h

module _ (os : Rtos) (laws : IsRtos os) {A : Type 0} (P : A → Shared os.Kernel → Type 0)
    (F : Type 0) where
  taken-Outcome :
      (h : Ptr) (next : A) (s : Shared os.Kernel) (o : Option os.Kernel)
      → os.take h s.kernel ≡ o
      → ((k : os.Kernel)
          → os.available h s.kernel ≡ true
          → os.available h k ≡ false
          → SameBut os h s.kernel k
          → P next (record s { kernel = k }))
      → Outcome P F (and_then (taken os s o) (λ _. pure next))
  taken-Outcome h next s none e good = tt
  taken-Outcome h next s (some k) e good =
      let free = laws.take_some h s.kernel k e in
      let (k', e', spent, others) = laws.take_available h s.kernel free in
      let at : k' ≡ k = cc in
      good k free (subst (λ j. os.available h j ≡ false) at spent)
        (subst (λ j. SameBut os h s.kernel j) at others)

  -- A take of a semaphore that is named in the structure.
  pub take-Outcome :
      (wq : Ptr) (semaphore : Info → Ptr) (next : A) (s : Shared os.Kernel) {info : Info}
      → s.structures wq ≡ some info
      → ((k : os.Kernel)
          → os.available (semaphore info) s.kernel ≡ true
          → os.available (semaphore info) k ≡ false
          → SameBut os (semaphore info) s.kernel k
          → P next (record s { kernel = k }))
      → Outcome P F (and_then (get wq s) (λ i. take os (semaphore i) >> pure next))
  unfolding take
  take-Outcome wq semaphore next s {info} at good =
      get-Outcome P F wq s (λ i. take os (semaphore i) >> pure next) at
        (taken-Outcome (semaphore info) next s (os.take (semaphore info) s.kernel) refl good)

module _ {K : Type 0} (wq : Ptr) (info : Info) (s : Shared K) where
  -- A step of the kernel alone leaves the structure.
  pub Lasts-kernel : (k : K) → Lasts wq info s → Lasts wq info (record s { kernel = k })
  Lasts-kernel k l = record { structure = l.structure; stays = l.stays; apart = l.apart }

  -- A step that moves no work item.
  pub Owned-move :
      (k : K) (w w' : WorkerPc) (cs cs' : List ClientPc) (q : List Ptr)
      → Owned wq s w cs q
      → ((a : Ptr) → owned a w' cs' q ≡ owned a w cs q)
      → in_hand s.items w' ≡ in_hand s.items w
      → All (ClientKnows s.items) cs'
      → Owned wq (record s { kernel = k }) w' cs' q
  Owned-move k w w' cs cs' q o even hand clients = record {
    queue = o.queue;
    bounded = o.bounded;
    single = λ a. omega (arith, even a, o.single a);
    allocated = λ a le.
        let i = o.allocated a (omega (arith, even a)) in
        record { ne_null = i.ne_null; item = i.item; there = i.there; mapped = i.mapped };
    complete = λ a ne. omega (arith, even a, o.complete a ne);
    head_free = o.head_free;
    history =
        o.history ∙ ap (λ (h : List Item). s.calls ++ (h ++ contents_of s.items q)) (sym hand);
    clients = clients;
  }
