-- ===== src/WorkQueue/Frames.antt =====
-- What a write to one work item leaves as it was: the queue, the contents of the other work items,
-- and what the tasks know.
use mathlib.Core.List.{reverse, reverse-append}
use freertos_addons.Prelude.{
  ◌≤◌, ◌≡◌, refl, true, some, List, [], ◌∷◌, ◌++◌, arith, length, length-append, has, has-append,
  append_assoc, ap, ◌∙◌, sym,
}
use freertos_addons.Memory.{Ptr, Field, Mem}
use freertos_addons.Memory.Path
use freertos_addons.Dlist.Ring.{BackTo-frame}
use freertos_addons.Tasks.{total, All}
use freertos_addons.Queue.{head_of}
use freertos_addons.Queue.Fifo.{IsQueue}
use freertos_addons.WorkQueue.{
  Item, ClientPc, idle, lock_queue, add_item, signal_worker, unlock_queue, answered, lock_destroy,
  set_exit, signal_exit, unlock_destroy,
}
use freertos_addons.WorkQueue.Places.{owns, content, contents_of, ClientKnows}

pub length-reverse : (xs : List Ptr) → length (reverse xs) ≡ length xs
length-reverse [] = refl
length-reverse (x ∷ xs) =
    ap (λ (ys : List Ptr). length ys) (reverse-append (x ∷ []) xs)
    ∙ omega (arith, length-append (reverse xs) (x ∷ []), length-reverse xs)

pub has-reverse : (a : Ptr) (xs : List Ptr) → has a (reverse xs) ≡ has a xs
has-reverse a [] = refl
has-reverse a (x ∷ xs) =
    ap (λ (ys : List Ptr). has a ys) (reverse-append (x ∷ []) xs)
    ∙ ground (arith, has-append a (reverse xs) (x ∷ []), has-reverse a xs)

-- The queue reads nothing but its count and the links of its ring.
pub IsQueue-frame :
    (m m' : Mem) (queue : Ptr) (xs : List Ptr)
    → m'.count queue ≡ m.count queue
    → ((a : Ptr)
        → has a (head_of queue ∷ xs) ≡ true
        → (m'.dl_next a ≡ m.dl_next a) × (m'.dl_prev a ≡ m.dl_prev a))
    → IsQueue m queue xs
    → IsQueue m' queue xs
IsQueue-frame m m' queue xs counts links s = record {
  ne_null = s.ne_null;
  count = counts ∙ s.count;
  ring = record {
    nodes = s.ring.nodes;
    forward =
        Path.LinkedTo-frame m.dl_next m'.dl_next (head_of queue ∷ xs) _ (λ a i. (links a i).0)
          s.ring.forward;
    backward =
        BackTo-frame m.dl_prev m'.dl_prev _ (head_of queue ∷ xs) (λ a i. (links a i).1)
          s.ring.backward;
  };
}

pub contents_of-frame :
    (f g : Field Item) (q : List Ptr)
    → ((a : Ptr) → has a q ≡ true → g a ≡ f a)
    → contents_of g q ≡ contents_of f q
contents_of-frame f g [] kept = refl
contents_of-frame f g (x ∷ q) kept =
    let here = ap content (kept x (ground arith)) in
    let rest = contents_of-frame f g q (λ a i. kept a (ground arith)) in λ i. here i ++ rest i

pub contents_of-append :
    (f : Field Item) (q : List Ptr) (a : Ptr) {item : Item}
    → f a ≡ some item
    → contents_of f (q ++ a ∷ []) ≡ contents_of f q ++ item ∷ []
contents_of-append f [] a e = rw e refl
contents_of-append f (x ∷ q) a e =
    ap (λ (ys : List Item). content (f x) ++ ys) (contents_of-append f q a e)
    ∙ sym (append_assoc (content (f x)) (contents_of f q) (_ ∷ []))

-- The tasks know what they knew, where the work items in their hands are as they were.
ClientKnows-kept :
    (f g : Field Item) (p : ClientPc)
    → ((a : Ptr) → 1 ≤ owns a p → g a ≡ f a)
    → ClientKnows f p
    → ClientKnows g p
ClientKnows-kept f g idle kept k = tt
ClientKnows-kept f g (lock_queue node item) kept k = kept node (ground arith) ∙ k
ClientKnows-kept f g (add_item node item) kept k = kept node (ground arith) ∙ k
ClientKnows-kept f g signal_worker kept k = tt
ClientKnows-kept f g unlock_queue kept k = tt
ClientKnows-kept f g (answered pass) kept k = tt
ClientKnows-kept f g lock_destroy kept k = k
ClientKnows-kept f g set_exit kept k = k
ClientKnows-kept f g signal_exit kept k = k
ClientKnows-kept f g unlock_destroy kept k = k

pub clients_kept :
    (f g : Field Item) (cs : List ClientPc)
    → ((a : Ptr) → 1 ≤ total (owns a) cs → g a ≡ f a)
    → All (ClientKnows f) cs
    → All (ClientKnows g) cs
unfolding total
clients_kept f g [] kept k = tt
clients_kept f g (p ∷ cs) kept (k, ks) = (
  ClientKnows-kept f g p (λ a le. kept a (omega arith)) k,
  clients_kept f g cs (λ a le. kept a (omega arith)) ks,
)
