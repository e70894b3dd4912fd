-- ===== src/WorkQueue/WorkerSteps.antt =====
-- Every step of the worker keeps the invariant, and none of them faults.
use mathlib.Core.List.{reverse}
use mathlib.Core.Path.{subst}
use freertos_addons.Prelude.{
  ℕ, ◌≡◌, refl, Bool, true, false, List, [], ◌∷◌, arith, ◌==◌, if◌then◌else◌, length, ap, sym,
}
use freertos_addons.Memory.{Ptr}
use freertos_addons.Rtos.{Rtos, IsRtos}
use freertos_addons.Tasks.{total, up, Outcome}
use freertos_addons.Queue.Fifo.{is_queue_empty_lem}
use freertos_addons.WorkQueue.{
  Info, Shared, WorkerPc, await_event, take_lock, test_empty, take_item, release_lock,
  call_function, free_item, retake_lock, read_exit, end_round, lock_cleanup, test_drained,
  drain_item, free_drained, unlock_cleanup, delete_lock, delete_event, read_handle, free_structure,
  delete_task, gone, ClientPc, worker, get_item, give, free_work_item,
}
use freertos_addons.WorkQueue.Kernel.{TaskCalls}
use freertos_addons.WorkQueue.Places.{worker_holds, worker_owns, in_hand, signals}
use freertos_addons.WorkQueue.Frames.{length-reverse}
use freertos_addons.WorkQueue.Invariant.{
  Owned, WorkerKnows, Inv, get_lem, take-Outcome, Lasts-kernel, Owned-move,
}
use freertos_addons.WorkQueue.Takes.{dequeued-Owned, called-Owned, freed-Owned}

module _ (os : Rtos) (laws : IsRtos os) (tasks : TaskCalls os) (wq : Ptr) (info : Info)
    (cs : List ClientPc) where
  -- The invariant, as what a step of the worker leaves.
  abbrev Kept : WorkerPc → Shared os.Kernel → Type 0
  Kept w s = Inv os wq info s w cs

  -- A step that takes the event.
  await_event_keeps :
      (s : Shared os.Kernel)
      → Kept await_event s
      → Outcome Kept ⊥ (worker os tasks wq await_event s)
  unfolding worker
  await_event_keeps s v =
      take-Outcome os laws Kept ⊥ wq (λ i. i.event) take_lock s v.lasts.structure
        λ k free spent others. record {
          q = v.q;
          owned =
              Owned-move wq info s k await_event take_lock cs cs v.q v.owned (λ a. refl) refl
                v.owned.clients;
          lasts = Lasts-kernel wq info s k v.lasts;
          lock = omega (arith, v.lock, ap up (others info.lock (λ e. v.lasts.apart (sym e))));
          worker_knows = tt;
        }

  -- The steps that take the lock.
  locked :
      (w : WorkerPc) (s : Shared os.Kernel) (k : os.Kernel)
      → Kept w s
      → worker_holds w ≡ 0
      → ((a : Ptr) → worker_owns a w ≡ 0)
      → in_hand s.items w ≡ []
      → os.available info.lock s.kernel ≡ true
      → os.available info.lock k ≡ false
      → Kept test_empty (record s { kernel = k })
  locked w s k v free_handed unowned empty free spent = record {
    q = v.q;
    owned =
        Owned-move wq info s k w test_empty cs cs v.q v.owned (λ a. omega (arith, unowned a))
          (sym empty) v.owned.clients;
    lasts = Lasts-kernel wq info s k v.lasts;
    lock = omega (arith, v.lock, free_handed, ap up free, ap up spent);
    worker_knows = tt;
  }

  take_lock_keeps :
      (w : WorkerPc) (s : Shared os.Kernel)
      → Kept w s
      → worker_holds w ≡ 0
      → ((a : Ptr) → worker_owns a w ≡ 0)
      → in_hand s.items w ≡ []
      → Outcome Kept ⊥ (worker os tasks wq take_lock s)
  unfolding worker
  take_lock_keeps w s v free_handed unowned empty =
      take-Outcome os laws Kept ⊥ wq (λ i. i.lock) test_empty s v.lasts.structure
        λ k free spent others. locked w s k v free_handed unowned empty free spent

  -- The test of the queue.
  tested :
      (s : Shared os.Kernel) (v : Kept test_empty s) (b : Bool)
      → (length (reverse v.q) == 0) ≡ b
      → Kept (if b then read_exit else take_item) s
  tested s v true e = record {
    q = v.q;
    owned =
        Owned-move wq info s s.kernel test_empty read_exit cs cs v.q v.owned (λ a. refl) refl
          v.owned.clients;
    lasts = v.lasts;
    lock = v.lock;
    worker_knows = ground (arith, length-reverse v.q);
  }
  tested s v false e = record {
    q = v.q;
    owned =
        Owned-move wq info s s.kernel test_empty take_item cs cs v.q v.owned (λ a. refl) refl
          v.owned.clients;
    lasts = v.lasts;
    lock = v.lock;
    worker_knows = ground (arith, length-reverse v.q);
  }

  test_empty_keeps :
      (s : Shared os.Kernel) → Kept test_empty s → Outcome Kept ⊥ (worker os tasks wq test_empty s)
  unfolding worker
  test_empty_keeps s v =
      rw (is_queue_empty_lem s.mem wq (reverse v.q) v.owned.queue)
        (tested s v (length (reverse v.q) == 0) refl)

  dequeued :
      (s : Shared os.Kernel) (v : Kept take_item s) (q : List Ptr)
      → v.q ≡ q
      → Outcome Kept ⊥ (worker os tasks wq take_item s)
  unfolding worker
  dequeued s v [] e = absurd (omega (arith, v.worker_knows, ap (λ (xs : List Ptr). length xs) e))
  dequeued s v (x ∷ q) e =
      let (m, runs, o) = dequeued-Owned wq cs s x q (subst (Owned wq s take_item cs) e v.owned) in
      rw runs (record {
        q = q;
        owned = o;
        lasts = record {
          structure = v.lasts.structure;
          stays = v.lasts.stays;
          apart = v.lasts.apart;
        };
        lock = v.lock;
        worker_knows = tt;
      })

  -- The steps that give the lock back.
  unlocked :
      (w w' : WorkerPc) (s : Shared os.Kernel)
      → Kept w s
      → worker_holds w ≡ 1
      → worker_holds w' ≡ 0
      → ((a : Ptr) → worker_owns a w' ≡ worker_owns a w)
      → in_hand s.items w' ≡ in_hand s.items w
      → ((v : Kept w s)
          → WorkerKnows
              (up (os.available info.event (os.give info.lock s.kernel)))
              (total signals cs)
              (length v.q)
              w')
      → Kept w' (record s { kernel = os.give info.lock s.kernel })
  unlocked w w' s v held_one held_none even hand knows = record {
    q = v.q;
    owned =
        Owned-move wq info s (os.give info.lock s.kernel) w w' cs cs v.q v.owned
          (λ a. omega (arith, even a)) hand v.owned.clients;
    lasts = Lasts-kernel wq info s (os.give info.lock s.kernel) v.lasts;
    lock =
        omega (arith, v.lock, held_one, held_none, ap up (laws.give_available info.lock s.kernel));
    worker_knows = knows v;
  }

  release_lock_keeps :
      (node : Ptr) (s : Shared os.Kernel)
      → Kept (release_lock node) s
      → Outcome Kept ⊥ (worker os tasks wq (release_lock node) s)
  unfolding worker give
  release_lock_keeps node s v =
      rw (get_lem wq s v.lasts.structure)
        (unlocked (release_lock node) (call_function node) s v refl refl (λ a. refl) refl (λ _. tt))

  call_function_keeps :
      (node : Ptr) (s : Shared os.Kernel)
      → Kept (call_function node) s
      → Outcome Kept ⊥ (worker os tasks wq (call_function node) s)
  unfolding worker get_item
  call_function_keeps node s v =
      let (item, there, o) = called-Owned wq cs node s v.q v.owned in
      rw there (record {
        q = v.q;
        owned = o;
        lasts = record {
          structure = v.lasts.structure;
          stays = v.lasts.stays;
          apart = v.lasts.apart;
        };
        lock = v.lock;
        worker_knows = tt;
      })

  free_item_keeps :
      (node : Ptr) (s : Shared os.Kernel)
      → Kept (free_item node) s
      → Outcome Kept ⊥ (worker os tasks wq (free_item node) s)
  unfolding worker get_item free_work_item
  free_item_keeps node s v =
      let (item, there, o) = freed-Owned wq cs node s v.q v.owned in
      rw there (record {
        q = v.q;
        owned = o;
        lasts = record {
          structure = v.lasts.structure;
          stays = v.lasts.stays;
          apart = v.lasts.apart;
        };
        lock = v.lock;
        worker_knows = tt;
      })

  read_exit_keeps :
      (s : Shared os.Kernel) → Kept read_exit s → Outcome Kept ⊥ (worker os tasks wq read_exit s)
  unfolding worker
  read_exit_keeps s v = rw (get_lem wq s v.lasts.structure) (record {
    q = v.q;
    owned =
        Owned-move wq info s s.kernel read_exit (end_round info.exit_thread) cs cs v.q v.owned
          (λ a. refl) refl v.owned.clients;
    lasts = v.lasts;
    lock = v.lock;
    worker_knows = (v.worker_knows, v.lasts.stays);
  })

  end_round_keeps :
      (e : ℕ) (s : Shared os.Kernel)
      → Kept (end_round e) s
      → Outcome Kept ⊥ (worker os tasks wq (end_round e) s)
  unfolding worker give
  end_round_keeps e s v =
      let test : (e == 0) ≡ true = ground (arith, v.worker_knows.1) in
      rw (get_lem wq s v.lasts.structure, test)
        (unlocked (end_round e) await_event s v refl refl (λ a. refl) refl
          (λ u le. absurd (omega (arith, u.worker_knows.0))))

  retake_lock_keeps :
      (s : Shared os.Kernel)
      → Kept retake_lock s
      → Outcome Kept ⊥ (worker os tasks wq retake_lock s)
  unfolding worker
  retake_lock_keeps s v = take_lock_keeps retake_lock s v refl (λ a. refl) refl

  pub worker_keeps :
      (w : WorkerPc) (s : Shared os.Kernel) → Kept w s → Outcome Kept ⊥ (worker os tasks wq w s)
  worker_keeps await_event s v = await_event_keeps s v
  worker_keeps take_lock s v = take_lock_keeps take_lock s v refl (λ a. refl) refl
  worker_keeps test_empty s v = test_empty_keeps s v
  worker_keeps take_item s v = dequeued s v v.q refl
  worker_keeps (release_lock node) s v = release_lock_keeps node s v
  worker_keeps (call_function node) s v = call_function_keeps node s v
  worker_keeps (free_item node) s v = free_item_keeps node s v
  worker_keeps retake_lock s v = retake_lock_keeps s v
  worker_keeps read_exit s v = read_exit_keeps s v
  worker_keeps (end_round e) s v = end_round_keeps e s v
  worker_keeps lock_cleanup s v = absurd v.worker_knows
  worker_keeps test_drained s v = absurd v.worker_knows
  worker_keeps drain_item s v = absurd v.worker_knows
  worker_keeps (free_drained node) s v = absurd v.worker_knows
  worker_keeps unlock_cleanup s v = absurd v.worker_knows
  worker_keeps delete_lock s v = absurd v.worker_knows
  worker_keeps delete_event s v = absurd v.worker_knows
  worker_keeps read_handle s v = absurd v.worker_knows
  worker_keeps (free_structure handle) s v = absurd v.worker_knows
  worker_keeps (delete_task handle) s v = absurd v.worker_knows
  worker_keeps gone s v = absurd v.worker_knows
