-- ===== src/WorkQueue/Places.antt =====
-- What a task holds at its place: the lock, a work item, a signal that it is about to give.
use freertos_addons.Prelude.{ℕ, Option, none, some, List, [], ◌∷◌, ◌++◌, ◌==◌, if◌then◌else◌, ◌≡◌}
use freertos_addons.Memory.{Ptr, Field}
use freertos_addons.WorkQueue.{
  Item, WorkerPc, test_empty, take_item, release_lock, call_function, free_item, read_exit,
  end_round, test_drained, drain_item, free_drained, unlock_cleanup, ClientPc, lock_queue, add_item,
  signal_worker, unlock_queue, lock_destroy, set_exit, signal_exit, unlock_destroy,
}

abbrev pub same : Ptr → Ptr → ℕ
same a b = if a == b then 1 else 0

-- Whether the task has the lock of the queue.
abbrev pub holds_lock : ClientPc → ℕ
holds_lock (add_item node item) = 1
holds_lock signal_worker = 1
holds_lock unlock_queue = 1
holds_lock set_exit = 1
holds_lock signal_exit = 1
holds_lock unlock_destroy = 1
holds_lock p = 0

abbrev pub worker_holds : WorkerPc → ℕ
worker_holds test_empty = 1
worker_holds take_item = 1
worker_holds (release_lock node) = 1
worker_holds read_exit = 1
worker_holds (end_round e) = 1
worker_holds test_drained = 1
worker_holds drain_item = 1
worker_holds (free_drained node) = 1
worker_holds unlock_cleanup = 1
worker_holds p = 0

-- Whether the work item `a` is in the hands of the task.
abbrev pub owns : Ptr → ClientPc → ℕ
owns a (lock_queue node item) = same a node
owns a (add_item node item) = same a node
owns a p = 0

abbrev pub worker_owns : Ptr → WorkerPc → ℕ
worker_owns a (release_lock node) = same a node
worker_owns a (call_function node) = same a node
worker_owns a (free_item node) = same a node
worker_owns a (free_drained node) = same a node
worker_owns a p = 0

-- Whether the task is about to signal the worker.
abbrev pub signals : ClientPc → ℕ
signals signal_worker = 1
signals p = 0

-- The work item at a node, and those at the nodes of a list.
abbrev pub content : Option Item → List Item
content none = []
content (some item) = item ∷ []

abbrev pub contents_of : Field Item → List Ptr → List Item
contents_of items [] = []
contents_of items (a ∷ q) = content (items a) ++ contents_of items q

-- The work item that the worker has taken and not called yet.
abbrev pub in_hand : Field Item → WorkerPc → List Item
in_hand items (release_lock node) = content (items node)
in_hand items (call_function node) = content (items node)
in_hand items p = []

-- What a task that is in QueueWorkItem knows of its work item; no task is in DestroyWorkQueue.
abbrev pub ClientKnows : Field Item → ClientPc → Type 0
ClientKnows items (lock_queue node item) = items node ≡ some item
ClientKnows items (add_item node item) = items node ≡ some item
ClientKnows items lock_destroy = ⊥
ClientKnows items set_exit = ⊥
ClientKnows items signal_exit = ⊥
ClientKnows items unlock_destroy = ⊥
ClientKnows items p = Unit
