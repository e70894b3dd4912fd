-- ===== src/Queue/Runs.antt =====
-- Any sequence of Enqueue and Dequeue calls by one client against a first-in first-out list.
use mathlib.Core.Path.{subst}
use mathlib.Core.List.{reverse, reverse-append}
use freertos_addons.Prelude.{
  ◌<◌, ◌≡◌, ◌≢◌, refl, inl, inr, true, false, Bool-cases, some, List, [], ◌∷◌, ◌++◌, arith, length,
  has, ◌==◌, ◌∙◌, int_max, sym,
}
use freertos_addons.Machine.{Run, Cmd, ok, pure, ◌>>=◌, ◌>>◌}
use freertos_addons.Memory.{Ptr, null, Mem}
use freertos_addons.Memory.Path.{first_or, LinkedTo}
use freertos_addons.Dlist.Ring.{BackTo, IsRing}
use freertos_addons.Queue.{head_of, enqueue, dequeue}
use freertos_addons.Queue.Fifo.{
  IsQueue, OnlyQueue, enqueue-LeavesQueue, dequeue-nil, dequeue_oldest,
}

pub data QueueOp : Type 0 where
  put : Ptr → QueueOp
  get : QueueOp

-- The calls of Enqueue and Dequeue, and what the latter return.
unfoldable pub run : Ptr → List QueueOp → Cmd Mem (List Ptr)
run queue [] = pure []
run queue (put node ∷ ops) = do enqueue queue node; run queue ops
run queue (get ∷ ops) = do node ← dequeue queue; rest ← run queue ops; pure (node ∷ rest)

-- What a list answers that gives away its first and puts what comes behind its last.
unfoldable pub fifo_answers : List QueueOp → List Ptr → List Ptr
fifo_answers [] q = []
fifo_answers (put node ∷ ops) q = fifo_answers ops (q ++ node ∷ [])
fifo_answers (get ∷ ops) [] = null ∷ fifo_answers ops []
fifo_answers (get ∷ ops) (x ∷ q) = x ∷ fifo_answers ops q

-- What it holds in the end.
unfoldable pub contents : List QueueOp → List Ptr → List Ptr
contents [] q = q
contents (put node ∷ ops) q = contents ops (q ++ node ∷ [])
contents (get ∷ ops) [] = contents ops []
contents (get ∷ ops) (x ∷ q) = contents ops q

-- The queue holds the nodes `q`, the one that was put in first first.
abbrev pub IsFifo : Mem → Ptr → List Ptr → Type 0
IsFifo m queue q = IsQueue m queue (reverse q)

abbrev pub IsMapped : Mem → Ptr → Type 0
IsMapped m a = (p : Ptr) × (q : Ptr) × (m.dl_next a ≡ some p) × (m.dl_prev a ≡ some q)

-- The client puts in nodes that are not in the queue, and fewer than the count can count.
abbrev pub CanRun : Mem → (head : Ptr) → List QueueOp → List Ptr → Type 0
CanRun m head [] q = Unit
CanRun m head (put node ∷ ops) q =
    (node ≢ null)
    × (has node (head ∷ reverse q) ≡ false)
    × IsMapped m node
    × (length (reverse q) < int_max)
    × CanRun m head ops (q ++ node ∷ [])
CanRun m head (get ∷ ops) [] = CanRun m head ops []
CanRun m head (get ∷ ops) (x ∷ q) = CanRun m head ops q

CanRun-mono :
    (m m' : Mem) (head : Ptr)
    → ((a : Ptr) → IsMapped m a → IsMapped m' a)
    → (ops : List QueueOp) (q : List Ptr) → CanRun m head ops q
    → CanRun m' head ops q
CanRun-mono m m' head kept [] q can = tt
CanRun-mono m m' head kept (put node ∷ ops) q (ne, out, at, small, can) =
    (ne, out, kept node at, small, CanRun-mono m m' head kept ops (q ++ node ∷ []) can)
CanRun-mono m m' head kept (get ∷ ops) [] can = CanRun-mono m m' head kept ops [] can
CanRun-mono m m' head kept (get ∷ ops) (x ∷ q) can = CanRun-mono m m' head kept ops q can

-- The nodes of a ring are mapped.
pub IsMapped-of_has :
    (m : Mem) (e e' a : Ptr) (ps : List Ptr)
    → LinkedTo m.dl_next ps e
    → BackTo m.dl_prev e' ps
    → has a ps ≡ true
    → IsMapped m a
IsMapped-of_has m e e' a [] h k i = cc
IsMapped-of_has m e e' a (p ∷ ps) h k i = elim (Bool-cases (a == p)) [
  | inl here ↦ (first_or ps e, e', ground (arith, h.0), ground (arith, k.0))
  | inr other ↦ IsMapped-of_has m e p a ps h.1 k.1 (ground arith)
]

-- No mapped node is lost where the nodes that may change are in the ring afterwards.
pub IsMapped-kept :
    {m m' : Mem} (queue : Ptr) (changed ps : List Ptr)
    → OnlyQueue queue changed m m'
    → IsRing m' ps
    → ((a : Ptr) → has a changed ≡ true → has a ps ≡ true)
    → (a : Ptr) → IsMapped m a
    → IsMapped m' a
IsMapped-kept {m' = m'} queue changed ps only r inside a (p, q, at, at') =
    elim (Bool-cases (has a changed)) [
      | inl i ↦ IsMapped-of_has m' _ _ a ps r.forward r.backward (inside a i)
      | inr o ↦ (p, q, only.same_next a o ∙ at, only.same_prev a o ∙ at')
    ]

-- A run that returns `a`, leaves the nodes `q` in the queue, and loses no mapped node.
pub record Turns {A : Type 0} (m : Mem) (queue : Ptr) (r : Run Mem A) (a : A) (q : List Ptr)
    : Type 0 where
  pub after : Mem
  pub runs : r ≡ ok a after
  pub holds : IsFifo after queue q
  pub kept : (p : Ptr) → IsMapped m p → IsMapped after p

pub enqueue-Turns :
    (m : Mem) (queue : Ptr) (q : List Ptr) (node : Ptr)
    → IsFifo m queue q
    → node ≢ null
    → has node (head_of queue ∷ reverse q) ≡ false
    → IsMapped m node
    → length (reverse q) < int_max
    → Turns m queue (enqueue queue node m) tt (q ++ node ∷ [])
enqueue-Turns m queue q node s ne out at small =
    let added =
      enqueue-LeavesQueue m queue (reverse q) node s
        (record {
          ne_null = ne;
          outside = out;
          old_next = at.0;
          next_mapped = at.2;
          old_prev = at.1;
          prev_mapped = at.3;
        })
        small in
    record {
      after = added.after;
      runs = added.runs;
      holds = subst (IsQueue added.after queue) (sym (reverse-append q (node ∷ []))) added.holds;
      kept = IsMapped-kept queue _ _ added.only added.holds.ring (λ a i. ground arith);
    }

pub dequeue-Turns :
    (m : Mem) (queue x : Ptr) (q : List Ptr)
    → IsFifo m queue (x ∷ q)
    → Turns m queue (dequeue queue m) x q
dequeue-Turns m queue x q s =
    let got =
      dequeue_oldest m queue x (reverse q)
        (subst (IsQueue m queue) (reverse-append (x ∷ []) q) s) in
    record {
      after = got.after;
      runs = got.runs;
      holds = got.holds;
      kept = IsMapped-kept queue _ _ got.only got.holds.ring (λ a i. i);
    }

-- Any sequence of Enqueue and Dequeue calls on a queue returns, its Dequeue calls give the nodes
-- that a first-in first-out list gives (`NULL` where it is empty), and the queue holds what that
-- list holds, if each node that is put in is a mapped node that is not in the queue at that time
-- and the count stays in an `int`.
pub run-fifo_answers :
    (ops : List QueueOp) (m : Mem) (queue : Ptr) (q : List Ptr)
    → IsFifo m queue q
    → CanRun m (head_of queue) ops q
    → (m' : Mem) × (run queue ops m ≡ ok (fifo_answers ops q) m') × IsFifo m' queue (contents ops q)
unfolding run fifo_answers contents
run-fifo_answers [] m queue q s can = (m, refl, s)
run-fifo_answers (put node ∷ ops) m queue q s (ne, out, at, small, can) =
    let added = enqueue-Turns m queue q node s ne out at small in
    let (m', ran, s') =
      run-fifo_answers ops added.after queue (q ++ node ∷ []) added.holds
        (CanRun-mono m added.after (head_of queue) added.kept ops (q ++ node ∷ []) can) in
    (m', rw added.runs ran, s')
run-fifo_answers (get ∷ ops) m queue [] s can =
    let (m', ran, s') = run-fifo_answers ops m queue [] s can in
    (m', rw (dequeue-nil m queue s, ran) refl, s')
run-fifo_answers (get ∷ ops) m queue (x ∷ q) s can =
    let got = dequeue-Turns m queue x q s in
    let (m', ran, s') =
      run-fifo_answers ops got.after queue q got.holds
        (CanRun-mono m got.after (head_of queue) got.kept ops q can) in
    (m', rw (got.runs, ran) refl, s')
