-- ===== src/WorkQueue/System.antt =====
-- What holds in every state that one worker and any number of tasks reach.
use mathlib.Core.Path.{subst}
use freertos_addons.Prelude.{
  ℕ, ◌+◌, ◌≤◌, ◌≡◌, ◌≢◌, refl, true, false, some, none, List, [], ◌∷◌, ◌++◌, arith, length, int_max,
  ap, ◌∙◌, sym, append-nil, pos, ◌<◌,
}
use freertos_addons.Machine.{fault}
use freertos_addons.Memory.{Ptr}
use freertos_addons.Rtos.{Rtos, IsRtos}
use freertos_addons.Tasks.{
  total, total-append, up, Outcome-ok, Outcome-fault, All-to_front, All-from_front,
}
use freertos_addons.Queue.{head_of}
use freertos_addons.Queue.Runs.{IsFifo}
use freertos_addons.WorkQueue.{
  Info, Shared, WorkerPc, await_event, ClientPc, idle, Call, worker, client,
}
use freertos_addons.WorkQueue.Kernel.{TaskCalls}
use freertos_addons.WorkQueue.Places.{
  holds_lock, worker_holds, owns, signals, contents_of, in_hand, ClientKnows,
}
use freertos_addons.WorkQueue.Frames.{length-reverse}
use freertos_addons.WorkQueue.Invariant.{owned, WorkerKnows, Inv}
use freertos_addons.WorkQueue.WorkerSteps.{worker_keeps}
use freertos_addons.WorkQueue.ClientSteps.{client_keeps, Mallocs, Overflows}
use freertos_addons.WorkQueue.Reach.{
  System, Step, worker_step, client_step, Reaches, start, then_step, IsNew, outsiders,
  total-outsiders, outsiders_know, Inv-reorder, same_count, no_overflow,
}

module _ (os : Rtos) (laws : IsRtos os) (tasks : TaskCalls os) (wq : Ptr) (info : Info) where
  abbrev Holds : System os.Kernel → Type 0
  Holds y = Inv os wq info y.shared y.place y.clients

  to_front :
      (s : Shared os.Kernel) (w : WorkerPc) (before : List ClientPc) (p : ClientPc)
      (after : List ClientPc)
      → Inv os wq info s w (before ++ p ∷ after)
      → Inv os wq info s w (p ∷ before ++ after)
  unfolding total
  to_front s w before p after v =
      Inv-reorder os wq info s w (before ++ p ∷ after) (p ∷ before ++ after)
        (λ weight. sym (total-append weight before p after))
        (All-to_front (ClientKnows s.items) before p after v.owned.clients) v

  from_front :
      (s : Shared os.Kernel) (w : WorkerPc) (before : List ClientPc) (p : ClientPc)
      (after : List ClientPc)
      → Inv os wq info s w (p ∷ before ++ after)
      → Inv os wq info s w (before ++ p ∷ after)
  unfolding total
  from_front s w before p after v =
      Inv-reorder os wq info s w (p ∷ before ++ after) (before ++ p ∷ after)
        (λ weight. total-append weight before p after)
        (All-from_front (ClientKnows s.items) before p after v.owned.clients.0 v.owned.clients.1) v

  Step-keeps : {y z : System os.Kernel} → Step os tasks wq y z → Holds y → Holds z
  Step-keeps (worker_step y w s e) v =
      Outcome-ok (λ r t. Inv os wq info t r y.clients) ⊥ (worker os tasks wq y.place y.shared) e
        (worker_keeps os laws tasks wq info y.clients y.place y.shared v)
  Step-keeps (client_step c before after p q w s s' fresh e) v =
      let front = to_front s w before p after v in
      from_front s' w before q after (
        Outcome-ok (λ r t. Inv os wq info t w (r ∷ before ++ after)) (Overflows p (length front.q))
          (client os wq c p s) e
          (client_keeps os laws wq info w (before ++ after) c p s fresh front))

  Reaches-keeps : {y z : System os.Kernel} → Reaches os tasks wq y z → Holds y → Holds z
  Reaches-keeps start v = v
  Reaches-keeps (then_step r st) v = Step-keeps st (Reaches-keeps r v)

  new-Holds :
      (n : ℕ) (s : Shared os.Kernel)
      → IsNew os wq info s
      → Holds (record { shared = s; place = await_event; clients = outsiders n })
  new-Holds n s new =
      let none_of = λ (weight : ClientPc → ℕ) (e : weight idle ≡ 0). total-outsiders weight n e in
      record {
        q = [];
        owned = record {
          queue = new.queue;
          bounded = omega arith;
          single = λ a. omega (arith, none_of (owns a) refl);
          allocated = λ a le. absurd (omega (arith, none_of (owns a) refl));
          complete = λ a ne. absurd (ne (new.no_items a));
          head_free = new.no_items (head_of wq);
          history = new.nothing_yet ∙ sym (append-nil s.calls);
          clients = outsiders_know (ClientKnows s.items) n tt;
        };
        lasts = new.lasts;
        lock = omega (arith, ap up new.unlocked, none_of holds_lock refl);
        worker_knows = λ le. absurd (omega arith);
      }

  drained :
      (s : Shared os.Kernel) (q : List Ptr)
      → s.queued ≡ s.calls ++ ([] ++ contents_of s.items q)
      → (1 ≤ length q → ⊥)
      → s.queued ≡ s.calls
  drained s [] e none_left = e ∙ append-nil s.calls
  drained s (x ∷ q) e none_left = absurd (none_left (omega arith))

  at_rest :
      {s : Shared os.Kernel} {w : WorkerPc} {cs : List ClientPc}
      → w ≡ await_event
      → os.available info.event s.kernel ≡ false
      → total signals cs ≡ 0
      → Inv os wq info s w cs
      → s.queued ≡ s.calls
  at_rest {s} {w} {cs} waits quiet none_left v =
      let knows =
        subst (WorkerKnows (up (os.available info.event s.kernel)) (total signals cs) (length v.q))
          waits v.worker_knows in
      drained s v.q
        (subst (λ u. s.queued ≡ s.calls ++ (in_hand s.items u ++ contents_of s.items v.q)) waits
          v.owned.history)
        (λ le. absurd (omega (arith, knows le, none_left, ap up quiet)))

  module _ (n : ℕ) (s : Shared os.Kernel) (z : System os.Kernel) (new : IsNew os wq info s)
      (run : Reaches os tasks wq
        (record { shared = s; place = await_event; clients = outsiders n })
        z) where
    reached : Holds z
    reached = Reaches-keeps run (new-Holds n s new)

    -- In every state that one worker and any number of tasks reach from a new work queue through
    -- QueueWorkItem, in any order of their steps, where malloc returns NULL or memory that is not
    -- in use: what QueueWorkItem has put into the queue, in that order, is what the worker has
    -- called, then the work item in its hands that it has not called yet, then the work items in
    -- the queue, the oldest first.
    pub called_in_order :
        (q : List Ptr) × IsFifo z.shared.mem wq q
        × (z.shared.queued
            ≡ z.shared.calls ++ (in_hand z.shared.items z.place ++ contents_of z.shared.items q))
    called_in_order = let v = reached in (v.q, v.owned.queue, v.owned.history)

    -- In every state that one worker and any number of tasks reach from a new work queue through
    -- QueueWorkItem, in any order of their steps, where malloc returns NULL or memory that is not
    -- in use: if the worker waits for its event, the event is not available, and no task is about
    -- to signal it, then every function that has been queued has been called, in the order of the
    -- calls of QueueWorkItem that put them into the queue.
    pub all_called :
        z.place ≡ await_event
        → os.available info.event z.shared.kernel ≡ false
        → total signals z.clients ≡ 0
        → z.shared.queued ≡ z.shared.calls
    all_called waits quiet none_left = at_rest waits quiet none_left reached

    -- In every state that one worker and any number of tasks reach from a new work queue through
    -- QueueWorkItem, in any order of their steps, where malloc returns NULL or memory that is not
    -- in use: at most one of them has the lock, and if the lock is available, none has.
    pub lock_excludes :
        (worker_holds z.place + total holds_lock z.clients ≤ 1)
        × (os.available info.lock z.shared.kernel ≡ true
            → worker_holds z.place + total holds_lock z.clients ≡ 0)
    lock_excludes =
        let v = reached in (omega (arith, v.lock), λ free. omega (arith, v.lock, ap up free))

    -- In every state that one worker and any number of tasks reach from a new work queue through
    -- QueueWorkItem, in any order of their steps, where malloc returns NULL or memory that is not
    -- in use: a work item is in the hands of one task, or in those of the worker, or in the queue,
    -- at one place only, and the work items at such places are those that are allocated: none
    -- leaks, and none is there after its `free`.
    pub items_owned :
        (q : List Ptr) × IsFifo z.shared.mem wq q
        × ((a : Ptr) → owned a z.place z.clients q ≤ 1)
        × ((a : Ptr) → 1 ≤ owned a z.place z.clients q → z.shared.items a ≢ none)
        × ((a : Ptr) → z.shared.items a ≢ none → 1 ≤ owned a z.place z.clients q)
    items_owned =
        let v = reached in
        (
          v.q,
          v.owned.queue,
          v.owned.single,
          λ a le gone. cc ((v.owned.allocated a le).there, gone),
          v.owned.complete,
        )

    -- In every state that one worker and any number of tasks reach from a new work queue through
    -- QueueWorkItem, in any order of their steps, where malloc returns NULL or memory that is not
    -- in use: if the count of the queue is below INT_MAX, no step of the worker faults, and no step
    -- of a task does; no work item is used before it is allocated or after it is freed.
    pub faultless :
        (length_now : ℕ)
        → z.shared.mem.count wq ≡ some (pos length_now)
        → length_now < int_max
        → (worker os tasks wq z.place z.shared ≢ fault)
          × ((c : Call) (before after : List ClientPc) (p : ClientPc)
              → z.clients ≡ before ++ p ∷ after
              → Mallocs z.shared c
              → client os wq c p z.shared ≢ fault)
    faultless length_now counted small = (
      λ e.
          Outcome-fault (λ r t. Inv os wq info t r z.clients) ⊥
            (worker os tasks wq z.place z.shared) e
            (worker_keeps os laws tasks wq info z.clients z.place z.shared reached),
      λ c before after p at fresh e.
          let front =
            to_front z.shared z.place before p after
              (subst (λ cs. Inv os wq info z.shared z.place cs) at reached) in
          no_overflow p (length front.q) length_now
            (omega (arith, same_count front.owned.queue.count counted, length-reverse front.q))
            small
            (Outcome-fault (λ r t. Inv os wq info t z.place (r ∷ before ++ after))
              (Overflows p (length front.q)) (client os wq c p z.shared) e
              (client_keeps os laws wq info z.place (before ++ after) c p z.shared fresh front)),
    )
