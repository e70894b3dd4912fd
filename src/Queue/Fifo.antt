-- ===== src/Queue/Fifo.antt =====
-- The queue of queue_simple.c stands for a list, the newest node first.
use mathlib.Core.Path.{subst}
use freertos_addons.Prelude.{
  suc, ◌+◌, ◌<◌, ◌≡◌, ◌≢◌, refl, false, some, List, [], ◌∷◌, ◌++◌, arith, length, has, last_of,
  init_of, length-init_of, init_of-append, last_of-append, ◌==◌, ℤ, pos, int_max, ap, ◌∙◌,
}
use freertos_addons.Machine.{Run, ok, increment, decrement}
use freertos_addons.Memory.{Ptr, null, Mem}
use freertos_addons.Memory.Write.{write_self, write_ne}
use freertos_addons.Memory.Count.{get_count_lem, set_count_lem, with_count}
use freertos_addons.Dlist
use freertos_addons.Dlist.Ring.{IsRing, IsFree, OnlyLinks}
use freertos_addons.Dlist.Insert.{insert_node_after-LeavesRing, init_head-LeavesRing}
use freertos_addons.Dlist.Remove.{remove_node_from_tail-LeavesRing}
use freertos_addons.Queue.{head_of, init_queue, enqueue, dequeue, is_queue_empty}

-- The queue at `queue` holds the nodes `xs`, the one that was put in last first.
pub record IsQueue (m : Mem) (queue : Ptr) (xs : List Ptr) : Type 0 where
  pub ne_null : queue ≢ null
  pub count : m.count queue ≡ some (pos (length xs))
  pub ring : IsRing m (head_of queue ∷ xs)

-- Nothing but the links of `changed` and the `Count` of `queue` may differ.
pub record OnlyQueue (queue : Ptr) (changed : List Ptr) (m m' : Mem) : Type 0 where
  pub same_next : (a : Ptr) → has a changed ≡ false → m'.dl_next a ≡ m.dl_next a
  pub same_prev : (a : Ptr) → has a changed ≡ false → m'.dl_prev a ≡ m.dl_prev a
  pub same_count : (a : Ptr) → a ≢ queue → m'.count a ≡ m.count a
  pub same_lists : (a : Ptr) → m'.sl_next a ≡ m.sl_next a

-- A run that returns `a`, leaves the nodes `xs` in the queue, and changes what it may.
pub record LeavesQueue {A : Type 0} (m : Mem) (queue : Ptr) (r : Run Mem A) (a : A)
    (changed xs : List Ptr) : Type 0 where
  pub after : Mem
  pub runs : r ≡ ok a after
  pub holds : IsQueue after queue xs
  pub only : OnlyQueue queue changed m after

-- The ring does not read the counts.
IsRing-with_count :
    (m : Mem) (p : Ptr) (v : ℤ) {ps : List Ptr} → IsRing m ps → IsRing (with_count m p v) ps
IsRing-with_count m p v r = record { nodes = r.nodes; forward = r.forward; backward = r.backward }

-- A change of the ring after a count that changes.
OnlyQueue-links :
    (m m₁ : Mem) (queue : Ptr) (v : ℤ) (changed : List Ptr)
    → OnlyLinks changed (with_count m queue v) m₁
    → OnlyQueue queue changed m m₁
OnlyQueue-links m m₁ queue v changed only = record {
  same_next = only.same_next;
  same_prev = only.same_prev;
  same_count = λ a ne. ap (λ (w : Mem). w.count a) only.rest ∙ write_ne m.count queue v a ne;
  same_lists = λ a. ap (λ (w : Mem). w.sl_next a) only.rest;
}

count_after :
    (m m₁ : Mem) (queue : Ptr) (v : ℤ) (changed : List Ptr)
    → OnlyLinks changed (with_count m queue v) m₁
    → m₁.count queue ≡ some v
count_after m m₁ queue v changed only =
    ap (λ (w : Mem). w.count queue) only.rest ∙ write_self m.count queue v

-- Enqueue of a mapped node that is not in the queue puts it behind the head and counts it, if the
-- count does not overflow; it writes nothing but the count and the links of the new ring.
pub enqueue-LeavesQueue :
    (m : Mem) (queue : Ptr) (xs : List Ptr) (node : Ptr)
    → IsQueue m queue xs
    → IsFree m (head_of queue ∷ xs) node
    → length xs < int_max
    → LeavesQueue m queue (enqueue queue node m) tt (node ∷ head_of queue ∷ xs) (node ∷ xs)
unfolding enqueue Dlist.add_node_to_head increment
enqueue-LeavesQueue m queue xs node s free small =
    let test : (queue == null) ≡ false = ground (arith, s.ne_null) in
    let test' : (node == null) ≡ false = ground (arith, free.ne_null) in
    let below : (length xs == int_max) ≡ false = ground arith in
    let v = pos (length xs + 1) in
    let m₁ = with_count m queue v in
    let free₁ : IsFree m₁ (head_of queue ∷ xs) node = record {
      ne_null = free.ne_null;
      outside = free.outside;
      old_next = free.old_next;
      next_mapped = free.next_mapped;
      old_prev = free.old_prev;
      prev_mapped = free.prev_mapped;
    } in
    let added =
      insert_node_after-LeavesRing m₁ [] xs (head_of queue) node
        (IsRing-with_count m queue v s.ring) free₁ in
    record {
      after = added.after;
      runs =
          rw
            (
              test,
              test',
              get_count_lem m s.ne_null s.count,
              below,
              set_count_lem m s.ne_null s.count v,
            )
            added.runs;
      holds = record {
        ne_null = s.ne_null;
        count =
            count_after m added.after queue v _ added.only ∙ ap (λ n. some (pos n)) (omega arith);
        ring = added.ring;
      };
      only = OnlyQueue-links m added.after queue v _ added.only;
    }

-- Dequeue returns `NULL` for an empty queue, and changes nothing.
pub dequeue-nil : (m : Mem) (queue : Ptr) → IsQueue m queue [] → dequeue queue m ≡ ok null m
unfolding dequeue
dequeue-nil m queue s = ground (arith, s.ne_null, get_count_lem m s.ne_null s.count)

-- Dequeue of a queue that is not empty takes out the node that was put in first, returns it and
-- counts it; it writes nothing but the count and the links of the remaining ring.
pub dequeue-LeavesQueue :
    (m : Mem) (queue x : Ptr) (xs : List Ptr)
    → IsQueue m queue (x ∷ xs)
    → LeavesQueue m queue
        (dequeue queue m)
        (last_of x xs)
        (head_of queue ∷ init_of x xs)
        (init_of x xs)
unfolding dequeue decrement
dequeue-LeavesQueue m queue x xs s =
    let test : (queue == null) ≡ false = ground (arith, s.ne_null) in
    let some_left : (suc (length xs) == 0) ≡ false = ground arith in
    let v = pos (length xs) in
    let m₁ = with_count m queue v in
    let done =
      remove_node_from_tail-LeavesRing m₁ (head_of queue) x xs
        (IsRing-with_count m queue v s.ring) in
    record {
      after = done.after;
      runs =
          rw
            (
              test,
              get_count_lem m s.ne_null s.count,
              some_left,
              set_count_lem m s.ne_null s.count v,
            )
            done.runs;
      holds = record {
        ne_null = s.ne_null;
        count =
            count_after m done.after queue v _ done.only
            ∙ ap (λ n. some (pos n)) (length-init_of x xs);
        ring = done.ring;
      };
      only = OnlyQueue-links m done.after queue v _ done.only;
    }

-- The same, with the node that was put in first named.
pub dequeue_oldest :
    (m : Mem) (queue y : Ptr) (xs : List Ptr)
    → IsQueue m queue (xs ++ y ∷ [])
    → LeavesQueue m queue (dequeue queue m) y (head_of queue ∷ xs) xs
dequeue_oldest m queue y [] s = dequeue-LeavesQueue m queue y [] s
dequeue_oldest m queue y (x ∷ xs) s =
    subst (λ ps. LeavesQueue m queue (dequeue queue m) y (head_of queue ∷ ps) ps)
      (init_of-append x y xs)
      (subst
        (λ a.
          LeavesQueue m queue (dequeue queue m) a (head_of queue ∷ init_of x (xs ++ y ∷ []))
            (init_of x (xs ++ y ∷ [])))
        (last_of-append x y xs) (dequeue-LeavesQueue m queue x (xs ++ y ∷ []) s))

-- InitQueue leaves an empty queue, whatever the fields held.
pub init_queue-LeavesQueue :
    (m : Mem) (queue : Ptr) {c : ℤ} {p q : Ptr}
    → queue ≢ null
    → m.count queue ≡ some c
    → m.dl_next (head_of queue) ≡ some p
    → m.dl_prev (head_of queue) ≡ some q
    → LeavesQueue m queue (init_queue queue m) tt (head_of queue ∷ []) []
unfolding init_queue
init_queue-LeavesQueue m queue ne at next prev =
    let test : (queue == null) ≡ false = ground arith in
    let m₁ = with_count m queue (pos 0) in
    let done = init_head-LeavesRing m₁ (head_of queue) (omega arith) next prev in
    record {
      after = done.after;
      runs = rw (test, set_count_lem m ne at (pos 0)) done.runs;
      holds = record {
        ne_null = ne;
        count = count_after m done.after queue (pos 0) _ done.only;
        ring = done.ring;
      };
      only = OnlyQueue-links m done.after queue (pos 0) _ done.only;
    }

-- IsQueueEmpty says whether the queue holds no node.
pub is_queue_empty_lem :
    (m : Mem) (queue : Ptr) (xs : List Ptr)
    → IsQueue m queue xs
    → is_queue_empty queue m ≡ ok (length xs == 0) m
unfolding is_queue_empty
is_queue_empty_lem m queue xs s = rw (get_count_lem m s.ne_null s.count) refl
