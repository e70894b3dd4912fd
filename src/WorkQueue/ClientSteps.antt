-- ===== src/WorkQueue/ClientSteps.antt =====
-- Every step of QueueWorkItem keeps the invariant, and only a queue that is full faults.
use mathlib.Core.Path.{subst}
use mathlib.Core.List.{reverse}
use native.Mathlib.Decide.{ℕ_discrete}
use freertos_addons.Prelude.{
  ℕ, ◌+◌, ◌≤◌, ◌≡◌, ◌≢◌, refl, true, false, Bool-cases, inl, inr, some, none, List, [], ◌∷◌, ◌++◌,
  arith, ◌==◌, length, length-append, has, times-append, no_times, append_assoc, ap, ◌∙◌, sym,
  int_max,
}
use freertos_addons.Memory.{Ptr, null, Field}
use freertos_addons.Rtos.{Rtos, IsRtos}
use freertos_addons.Tasks.{total, up, Outcome}
use freertos_addons.Queue.{head_of}
use freertos_addons.Queue.Runs.{enqueue-Turns}
use freertos_addons.WorkQueue.{
  Item, Info, Shared, WorkerPc, ClientPc, idle, lock_queue, add_item, signal_worker, unlock_queue,
  answered, lock_destroy, set_exit, signal_exit, unlock_destroy, Call, client, give, with_item,
}
use freertos_addons.WorkQueue.Places.{
  same, holds_lock, owns, signals, contents_of, in_hand, ClientKnows,
}
use freertos_addons.WorkQueue.Frames.{length-reverse, has-reverse, contents_of-append}
use freertos_addons.WorkQueue.Invariant.{
  owned, IsItem, Owned, WorkerKnows, Inv, get_lem, take-Outcome, Lasts-kernel, Owned-move,
}
use freertos_addons.WorkQueue.Knowledge.{knows_mono, knows_added, enqueue_full}
use freertos_addons.WorkQueue.Obtain.{obtained-Owned}

-- What malloc returns is `NULL` or memory that is not in use.
abbrev pub Mallocs : {K : Type 0} → Shared K → Call → Type 0
Mallocs s c = c.new ≢ null → (s.items c.new ≡ none) × (s.mem.dl_next c.new ≡ none)

-- The count of the queue is at the end of its range.
abbrev pub Overflows : ClientPc → ℕ → Type 0
Overflows (add_item node item) n = n ≡ int_max
Overflows p n = ⊥

module _ (os : Rtos) (laws : IsRtos os) (wq : Ptr) (info : Info) (w : WorkerPc)
    (rest : List ClientPc) where
  abbrev Kept : ClientPc → Shared os.Kernel → Type 0
  Kept p s = Inv os wq info s w (p ∷ rest)

  -- A step of the kernel that moves no work item.
  moved :
      (p p' : ClientPc) (s : Shared os.Kernel) (k : os.Kernel)
      → Kept p s
      → ((a : Ptr) → owns a p' ≡ owns a p)
      → up (os.available info.lock k) + holds_lock p'
        ≡ up (os.available info.lock s.kernel) + holds_lock p
      → ((n : ℕ)
          → 1 ≤ up (os.available info.event s.kernel) + (signals p + n)
          → 1 ≤ up (os.available info.event k) + (signals p' + n))
      → ClientKnows s.items p'
      → Kept p' (record s { kernel = k })
  unfolding total
  moved p p' s k v even held signalled knows = record {
    q = v.q;
    owned =
        Owned-move wq info s k w w (p ∷ rest) (p' ∷ rest) v.q v.owned (λ a. omega (arith, even a))
          refl (knows, v.owned.clients.1);
    lasts = Lasts-kernel wq info s k v.lasts;
    lock = omega (arith, v.lock, held);
    worker_knows =
        knows_mono _ _ _ _ (length v.q) w (signalled (total signals rest)) v.worker_knows;
  }

  lock_queue_keeps :
      (c : Call) (node : Ptr) (item : Item) (s : Shared os.Kernel)
      → Kept (lock_queue node item) s
      → Outcome Kept ⊥ (client os wq c (lock_queue node item) s)
  unfolding client
  lock_queue_keeps c node item s v =
      take-Outcome os laws Kept ⊥ wq (λ i. i.lock) (add_item node item) s v.lasts.structure
        λ k free spent others.
          moved (lock_queue node item) (add_item node item) s k v (λ a. refl)
            (omega (arith, ap up free, ap up spent))
            (λ n le. omega (arith, ap up (others info.event v.lasts.apart))) v.owned.clients.0

  signal_worker_keeps :
      (c : Call) (s : Shared os.Kernel)
      → Kept signal_worker s
      → Outcome Kept ⊥ (client os wq c signal_worker s)
  unfolding client give
  signal_worker_keeps c s v =
      let given = ap up (laws.give_available info.event s.kernel) in
      let other =
        ap up (laws.give_same info.event s.kernel info.lock (λ e. v.lasts.apart (sym e))) in
      rw (get_lem wq s v.lasts.structure) (
        moved signal_worker unlock_queue s (os.give info.event s.kernel) v (λ a. refl)
          (omega (arith, other)) (λ n le. omega (arith, given)) tt)

  unlock_queue_keeps :
      (c : Call) (s : Shared os.Kernel)
      → Kept unlock_queue s
      → Outcome Kept ⊥ (client os wq c unlock_queue s)
  unfolding client give total
  unlock_queue_keeps c s v =
      let given = ap up (laws.give_available info.lock s.kernel) in
      let other = ap up (laws.give_same info.lock s.kernel info.event v.lasts.apart) in
      rw (get_lem wq s v.lasts.structure) (
        moved unlock_queue (answered true) s (os.give info.lock s.kernel) v (λ a. refl)
          (omega (arith, given, v.lock)) (λ n le. omega (arith, other)) tt)

  obtained :
      (c : Call) (s : Shared os.Kernel)
      → (s.items c.new ≡ none) × (s.mem.dl_next c.new ≡ none)
      → c.new ≢ null
      → Kept idle s
      → Kept (lock_queue c.new c.item) (with_item c s)
  unfolding total
  obtained c s fresh ne v = record {
    q = v.q;
    owned = obtained-Owned wq w rest c s v.q fresh ne v.owned;
    lasts = record { structure = v.lasts.structure; stays = v.lasts.stays; apart = v.lasts.apart };
    lock = v.lock;
    worker_knows = v.worker_knows;
  }

  -- The malloc of QueueWorkItem.
  idle_keeps :
      (c : Call) (s : Shared os.Kernel)
      → Mallocs s c
      → Kept idle s
      → Outcome Kept ⊥ (client os wq c idle s)
  unfolding client
  idle_keeps c s fresh v = elim (Bool-cases (c.new == null)) [
    | inl empty ↦
        rw empty (moved idle (answered false) s s.kernel v (λ a. refl) refl (λ n le. le) tt)
    | inr there ↦ rw there (obtained c s (fresh (ground arith)) (ground arith) v)
  ]

  in_hands :
      (node : Ptr) (item : Item) (s : Shared os.Kernel)
      → Kept (add_item node item) s
      → IsItem s.mem s.items node
  unfolding total
  in_hands node item s v =
      let one : same node node ≡ 1 = ground arith in v.owned.allocated node (omega (arith, one))

  -- The work item in the hands of the task goes from there to the end of the queue.
  add_even :
      (node : Ptr) (item : Item) (q : List Ptr) (a : Ptr)
      → owned a w (signal_worker ∷ rest) (q ++ node ∷ []) ≡ owned a w (add_item node item ∷ rest) q
  unfolding total
  add_even node item q a = omega (arith, times-append a q (node ∷ []))

  added_in_order :
      (calls queued hand : List Item) (items : Field Item) (q : List Ptr) (node : Ptr) (item : Item)
      → items node ≡ some item
      → queued ≡ calls ++ (hand ++ contents_of items q)
      → queued ++ item ∷ [] ≡ calls ++ (hand ++ contents_of items (q ++ node ∷ []))
  added_in_order calls queued hand items q node item at e =
      ap (λ (xs : List Item). xs ++ item ∷ []) e
      ∙ append_assoc calls (hand ++ contents_of items q) (item ∷ [])
      ∙ ap (λ (xs : List Item). calls ++ xs)
          (append_assoc hand (contents_of items q) (item ∷ [])
            ∙ ap (λ (xs : List Item). hand ++ xs) (sym (contents_of-append items q node at)))

  node_out :
      (node : Ptr) (item : Item) (s : Shared os.Kernel) (q : List Ptr)
      → Owned wq s w (add_item node item ∷ rest) q
      → has node (head_of wq ∷ reverse q) ≡ false
  unfolding total
  node_out node item s q o =
      let one : same node node ≡ 1 = ground arith in
      let out : has node q ≡ false = no_times node q (omega (arith, one, o.single node)) in
      let head_ne : node ≢ head_of wq = λ e. cc (o.clients.0, o.head_free, ap s.items e) in
      ground (arith, has-reverse node q, out)

  add_item_keeps :
      (c : Call) (node : Ptr) (item : Item) (s : Shared os.Kernel)
      → (v : Kept (add_item node item) s)
      → Outcome Kept (length v.q ≡ int_max) (client os wq c (add_item node item) s)
  unfolding client total
  add_item_keeps c node item s v = elim (ℕ_discrete (length v.q) int_max) [
    | yes full ↦
        rw
          (enqueue_full s.mem wq node (reverse v.q) v.owned.queue (in_hands node item s v).ne_null
            (length-reverse v.q ∙ full))
          full
    | no room ↦
        let o = v.owned in
        let i = in_hands node item s v in
        let turn =
          enqueue-Turns s.mem wq v.q node o.queue i.ne_null (node_out node item s v.q o) i.mapped
            (omega (arith, o.bounded, length-reverse v.q, room)) in
        rw turn.runs (record {
          q = v.q ++ node ∷ [];
          owned = record {
            queue = turn.holds;
            bounded = omega (
              arith,
              length-reverse (v.q ++ node ∷ []),
              length-append v.q (node ∷ []),
              o.bounded,
              length-reverse v.q,
              room,
            );
            single = λ a. omega (arith, add_even node item v.q a, o.single a);
            allocated = λ a le.
                let j = o.allocated a (omega (arith, add_even node item v.q a)) in
                record {
                  ne_null = j.ne_null;
                  item = j.item;
                  there = j.there;
                  mapped = turn.kept a j.mapped;
                };
            complete = λ a ne. omega (arith, add_even node item v.q a, o.complete a ne);
            head_free = o.head_free;
            history =
                added_in_order s.calls s.queued (in_hand s.items w) s.items v.q node item
                  o.clients.0 o.history;
            clients = (tt, o.clients.1);
          };
          lasts = record {
            structure = v.lasts.structure;
            stays = v.lasts.stays;
            apart = v.lasts.apart;
          };
          lock = v.lock;
          worker_knows =
              subst
                (λ n.
                  WorkerKnows (up (os.available info.event s.kernel)) (1 + total signals rest) n w)
                (sym (length-append v.q (node ∷ [])))
                (knows_added _ _ (1 + total signals rest) (length v.q) w (omega (arith, v.lock))
                  (omega arith) v.worker_knows);
        })
  ]

  pub client_keeps :
      (c : Call) (p : ClientPc) (s : Shared os.Kernel)
      → Mallocs s c
      → (v : Kept p s) → Outcome Kept (Overflows p (length v.q)) (client os wq c p s)
  unfolding client total
  client_keeps c idle s fresh v = idle_keeps c s fresh v
  client_keeps c (lock_queue node item) s fresh v = lock_queue_keeps c node item s v
  client_keeps c (add_item node item) s fresh v = add_item_keeps c node item s v
  client_keeps c signal_worker s fresh v = signal_worker_keeps c s v
  client_keeps c unlock_queue s fresh v = unlock_queue_keeps c s v
  client_keeps c (answered pass) s fresh v =
      moved (answered pass) idle s s.kernel v (λ a. refl) refl (λ n le. le) tt
  client_keeps c lock_destroy s fresh v = absurd v.owned.clients.0
  client_keeps c set_exit s fresh v = absurd v.owned.clients.0
  client_keeps c signal_exit s fresh v = absurd v.owned.clients.0
  client_keeps c unlock_destroy s fresh v = absurd v.owned.clients.0
