-- ===== src/WorkQueue/Knowledge.antt =====
-- What the worker knows, when another task has moved or has added a work item.
use freertos_addons.Prelude.{
  ℕ, ◌+◌, ◌≤◌, ◌≡◌, ◌≢◌, refl, true, false, List, arith, ◌==◌, length, ap, int_max,
}
use freertos_addons.Machine.{fault, increment}
use freertos_addons.Memory.{Ptr, null, Field, Mem}
use freertos_addons.Memory.Count.{get_count_lem}
use freertos_addons.Queue.{enqueue}
use freertos_addons.Queue.Fifo.{IsQueue}
use freertos_addons.WorkQueue.{
  Item, WorkerPc, await_event, take_lock, test_empty, take_item, release_lock, call_function,
  free_item, retake_lock, read_exit, end_round, lock_cleanup, test_drained, drain_item,
  free_drained, unlock_cleanup, delete_lock, delete_event, read_handle, free_structure, delete_task,
  gone,
}
use freertos_addons.WorkQueue.Places.{worker_holds, worker_owns, content, in_hand}
use freertos_addons.WorkQueue.Invariant.{WorkerKnows}

pub knows_mono :
    (av sg av' sg' n : ℕ) (w : WorkerPc)
    → (1 ≤ av + sg → 1 ≤ av' + sg')
    → WorkerKnows av sg n w
    → WorkerKnows av' sg' n w
knows_mono av sg av' sg' n await_event more k = λ le. more (k le)
knows_mono av sg av' sg' n take_lock more k = k
knows_mono av sg av' sg' n test_empty more k = k
knows_mono av sg av' sg' n take_item more k = k
knows_mono av sg av' sg' n (release_lock node) more k = k
knows_mono av sg av' sg' n (call_function node) more k = k
knows_mono av sg av' sg' n (free_item node) more k = k
knows_mono av sg av' sg' n retake_lock more k = k
knows_mono av sg av' sg' n read_exit more k = k
knows_mono av sg av' sg' n (end_round e) more k = k
knows_mono av sg av' sg' n lock_cleanup more k = k
knows_mono av sg av' sg' n test_drained more k = k
knows_mono av sg av' sg' n drain_item more k = k
knows_mono av sg av' sg' n (free_drained node) more k = k
knows_mono av sg av' sg' n unlock_cleanup more k = k
knows_mono av sg av' sg' n delete_lock more k = k
knows_mono av sg av' sg' n delete_event more k = k
knows_mono av sg av' sg' n read_handle more k = k
knows_mono av sg av' sg' n (free_structure handle) more k = k
knows_mono av sg av' sg' n (delete_task handle) more k = k
knows_mono av sg av' sg' n gone more k = k

-- A work item more, while the worker does not have the lock and its signal is about to be given.
pub knows_added :
    (av sg sg' n : ℕ) (w : WorkerPc)
    → worker_holds w ≡ 0
    → 1 ≤ sg'
    → WorkerKnows av sg n w
    → WorkerKnows av sg' (n + 1) w
knows_added av sg sg' n await_event free le k = λ _. omega arith
knows_added av sg sg' n take_lock free le k = tt
knows_added av sg sg' n test_empty free le k = tt
knows_added av sg sg' n take_item free le k = omega arith
knows_added av sg sg' n (release_lock node) free le k = tt
knows_added av sg sg' n (call_function node) free le k = tt
knows_added av sg sg' n (free_item node) free le k = tt
knows_added av sg sg' n retake_lock free le k = tt
knows_added av sg sg' n read_exit free le k = absurd (omega arith)
knows_added av sg sg' n (end_round e) free le k = absurd (omega arith)
knows_added av sg sg' n lock_cleanup free le k = k
knows_added av sg sg' n test_drained free le k = k
knows_added av sg sg' n drain_item free le k = k
knows_added av sg sg' n (free_drained node) free le k = k
knows_added av sg sg' n unlock_cleanup free le k = k
knows_added av sg sg' n delete_lock free le k = k
knows_added av sg sg' n delete_event free le k = k
knows_added av sg sg' n read_handle free le k = k
knows_added av sg sg' n (free_structure handle) free le k = k
knows_added av sg sg' n (delete_task handle) free le k = k
knows_added av sg sg' n gone free le k = k

-- The work item in the worker's hands.
pub in_hand-frame :
    (f g : Field Item) (w : WorkerPc)
    → ((a : Ptr) → 1 ≤ worker_owns a w → g a ≡ f a)
    → in_hand g w ≡ in_hand f w
in_hand-frame f g (release_lock node) kept = ap content (kept node (ground arith))
in_hand-frame f g (call_function node) kept = ap content (kept node (ground arith))
in_hand-frame f g await_event kept = refl
in_hand-frame f g take_lock kept = refl
in_hand-frame f g test_empty kept = refl
in_hand-frame f g take_item kept = refl
in_hand-frame f g (free_item node) kept = refl
in_hand-frame f g retake_lock kept = refl
in_hand-frame f g read_exit kept = refl
in_hand-frame f g (end_round e) kept = refl
in_hand-frame f g lock_cleanup kept = refl
in_hand-frame f g test_drained kept = refl
in_hand-frame f g drain_item kept = refl
in_hand-frame f g (free_drained node) kept = refl
in_hand-frame f g unlock_cleanup kept = refl
in_hand-frame f g delete_lock kept = refl
in_hand-frame f g delete_event kept = refl
in_hand-frame f g read_handle kept = refl
in_hand-frame f g (free_structure handle) kept = refl
in_hand-frame f g (delete_task handle) kept = refl
in_hand-frame f g gone kept = refl

not_null : (p : Ptr) → p ≢ null → (p == null) ≡ false
not_null p ne = ground arith

is_number_self : (n m : ℕ) → n ≡ m → (n == m) ≡ true
is_number_self n m e = ground arith

-- Enqueue overflows the count where it is INT_MAX.
pub enqueue_full :
    (m : Mem) (queue node : Ptr) (xs : List Ptr)
    → IsQueue m queue xs
    → node ≢ null
    → length xs ≡ int_max
    → enqueue queue node m ≡ fault
unfolding enqueue increment
enqueue_full m queue node xs s ne full =
    let over = is_number_self (length xs) int_max full in
    rw (not_null queue s.ne_null, not_null node ne, get_count_lem m s.ne_null s.count, over) refl
